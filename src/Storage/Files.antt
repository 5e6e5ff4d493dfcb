-- ===== src/Storage/Files.antt =====
-- src/storage/file_manager.rs: the uploaded files and when they were uploaded. A file is named by
-- its path, the clock is the argument `now`.
use rust_p2p_filesystem.Base.{ℕ, ◌-◌, List, [], map, keep, leb, nat_eq, Eq, list_beq, list_beq_iff}
use rust_p2p_filesystem.Base.Assoc.{Map}
use rust_p2p_filesystem.Base.Assoc

abbrev pub FileName : Type 0
FileName = List ℕ

instance abbrev pub name_eq : Eq FileName
name_eq = record { beq = list_beq; beq_iff = list_beq_iff }

abbrev pub default_file_reupload_interval_s : ℕ
default_file_reupload_interval_s = 86400

pub record StoredFileInfo : Type 0 where
  pub time_uploaded : ℕ

pub record FileManager : Type 0 where
  pub uploaded_files : Map FileName StoredFileInfo
  pub reupload_interval_s : ℕ

unfoldable pub new_with_reupload_interval : ℕ → FileManager
new_with_reupload_interval interval = record { uploaded_files = []; reupload_interval_s = interval }

unfoldable pub new : FileManager
unfolding new_with_reupload_interval
new = new_with_reupload_interval default_file_reupload_interval_s

-- An entry that is there gets the new time, and any other is added.
unfoldable pub add_file_uploaded_entry : ℕ → FileName → FileManager → FileManager
unfolding Assoc.insert
add_file_uploaded_entry now full_file_path m = record m {
  uploaded_files = Assoc.insert full_file_path (record { time_uploaded = now }) m.uploaded_files;
}

unfoldable pub get_files_for_reupload : ℕ → FileManager → List FileName
unfolding keep
get_files_for_reupload now m =
    map (λ (p : FileName × StoredFileInfo). p.0)
      (keep (λ (p : FileName × StoredFileInfo). leb m.reupload_interval_s (now - p.1.time_uploaded))
        m.uploaded_files)
