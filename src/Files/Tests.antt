-- ===== src/Files/Tests.antt =====
-- The table of open files through some calls, and its theorems there.
use os_project.Prelude.{ℕ, ◌≡◌, ◌≢◌, ◌⊎◌, refl, true, Option, none, some, List, ◌==◌, if◌then◌else◌}
use os_project.Files.{
  File, Ftable, set_file, find_file, filealloc, fileclose, Closing, nothing, pipealloc, close_pipe,
  Chunk, write_chunks, max_write, filewrite, fd_inode,
}
use os_project.Files.Holders.{
  State, stay, more, allocates, no_files, Safe, held_files-Safe, set_count,
}
use os_project.Files.PipeEnds.{Failed, Made, pipealloc_lem}
use os_project.Files.Chunks.{Written, filewrite-Written}

abbrev one_file : State
one_file = record {
  files = set_file no_files.files 0 (record (no_files.files 0) { ref = 1 });
  held = set_count no_files.held 0 1;
}

first_file : filealloc no_files.files ≡ some (0, one_file.files)
unfolding filealloc find_file
first_file = refl

held_files-Safe_example : Safe one_file
held_files-Safe_example =
    held_files-Safe one_file (more no_files one_file stay (allocates 0 one_file.files first_file))

abbrev pipe_page : ℕ
pipe_page = 4096

abbrev result_of : Option (Option (ℕ × ℕ) × Ftable) → Option (ℕ × ℕ)
result_of none = none
result_of (some r) = r.0

abbrev table_of : Option (Option (ℕ × ℕ) × Ftable) → Ftable
table_of none = no_files.files
table_of (some r) = r.1

-- The ends are the next two files; closing the second closes the writing end.
pipe_test : result_of (pipealloc pipe_page one_file.files) ≡ some (1, 2)
unfolding pipealloc filealloc find_file
pipe_test = refl

abbrev closing_of : Option (Closing × Ftable) → Closing
closing_of none = nothing
closing_of (some r) = r.0

close_test :
    closing_of (fileclose 2 (table_of (pipealloc pipe_page one_file.files)))
    ≡ close_pipe pipe_page true
unfolding pipealloc filealloc find_file fileclose
close_test = refl

pipealloc_lem_example :
    Failed pipe_page one_file.files ⊎ (pipe_page ≢ 0) × Made pipe_page one_file.files
pipealloc_lem_example = pipealloc_lem pipe_page one_file.files

-- The disk takes all but the call for the last bytes.
abbrev disk_fills : Chunk → Option ℕ
disk_fills c = if c.size == max_write then some c.size else some 100

abbrev open_inode : File
open_inode = record (no_files.files 0) { file_type = fd_inode; writable = true; ref = 1; off = 500 }

-- The bytes of the write, the new offset and the result.
abbrev outcome_of : Option (Option ℕ × File × List Chunk) → Option ℕ × ℕ
outcome_of none = (none, 0)
outcome_of (some r) = (r.0, r.1.off)

chunk_test : outcome_of (filewrite none none disk_fills open_inode 8000) ≡ (none, 6744)
unfolding filewrite write_chunks
chunk_test = refl

filewrite-Written_example :
    Written disk_fills open_inode 8000 (filewrite none none disk_fills open_inode 8000)
filewrite-Written_example = filewrite-Written none none disk_fills open_inode 8000 refl refl
