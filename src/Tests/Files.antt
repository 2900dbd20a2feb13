-- ===== src/Tests/Files.antt =====
-- Tests of the file system of student-distrib/rofs.c.
use apoll_os.Prelude.{◌≡◌, refl, inl, inr, arith, Option, none, some, [], ◌∷◌}
use apoll_os.Rofs.{Dentry, read_data, read_dentry_by_name, dir_read}
use apoll_os.Rofs.ReadData.{read_data_lem, read_data-wrap}
use apoll_os.Rofs.Names.{FirstMatch, read_dentry_by_name_lem}
use apoll_os.Rofs.FileRead.{IsOpen, read_all, read_all_lem}
use apoll_os.Rofs.Listing.{IsStored, dir_read_lem}
use apoll_os.Tests.Data.{
  small_fs, hi_name, hi_entry, hi_node, hi_node-IsFile, hi_file, hi_entry-IsDentry,
  IsBytes-all_bytes,
}

hi_entry-IsStored : IsStored hi_entry
hi_entry-IsStored = record { name_size = refl; type_known = omega arith; rest_size = refl }

hi_file-IsOpen : IsOpen small_fs (hi_file ∷ []) 0 hi_file hi_node
hi_file-IsOpen = record {
  small = omega arith;
  entry = refl;
  inode_in = omega arith;
  inode_at = refl;
  valid = hi_node-IsFile;
  fits = omega arith;
}

read_all_lem_example : read_all small_fs (hi_file ∷ []) 0 (2 ∷ 5 ∷ []) ≡ some (72 ∷ 9 ∷ 32 ∷ [])
read_all_lem_example =
    read_all_lem (2 ∷ 5 ∷ []) (hi_file ∷ []) hi_file hi_file-IsOpen (omega arith) (omega arith)

read_data_lem_example : read_data small_fs 0 1 (7 ∷ 7 ∷ 7 ∷ []) 9 ≡ some (2, 9 ∷ 200 ∷ 7 ∷ [])
read_data_lem_example =
    read_data_lem small_fs 0 hi_node 1 (7 ∷ 7 ∷ 7 ∷ []) 9 (omega arith) refl hi_node-IsFile
      (omega arith) (omega arith) (omega arith)

read_data-wrap_example : read_data small_fs 0 1 [] 0xffffffff ≡ none
read_data-wrap_example =
    read_data-wrap small_fs 0 hi_node 1 [] 0xffffffff (omega arith) refl (omega arith) (omega arith)
      (omega arith) (omega arith) (omega arith) (omega arith)

read_dentry_by_name_lem_example :
    (o : Option Dentry) × (read_dentry_by_name small_fs hi_name ≡ some o)
    × FirstMatch hi_name (hi_entry ∷ []) 0 1 o
read_dentry_by_name_lem_example =
    read_dentry_by_name_lem small_fs hi_name (inr (inr (inl refl))) (IsBytes-all_bytes hi_name refl)
      (omega arith) (hi_entry-IsDentry, tt)

dir_read_lem_example :
    dir_read small_fs (hi_file ∷ []) 0 (1 ∷ 1 ∷ 1 ∷ 1 ∷ []) 3
    ≡ some (2, record hi_file { pos = 1 } ∷ [], 104 ∷ 105 ∷ 0 ∷ 1 ∷ [])
dir_read_lem_example =
    dir_read_lem small_fs (hi_file ∷ []) 0 (1 ∷ 1 ∷ 1 ∷ 1 ∷ []) 3 hi_file hi_entry refl
      (omega arith) (omega arith) refl hi_entry-IsStored (omega arith) (omega arith)
