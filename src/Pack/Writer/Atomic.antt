-- ===== src/Pack/Writer/Atomic.antt =====
-- What a flush leaves on disk, whichever of its calls fails.
use backup_shield.Base.{
  ℕ, ◌+◌, ◌%◌, ◌^◌, ◌≡◌, refl, true, false, Option, none, some, List, [], ◌∷◌, ◌++◌, leb,
  if◌then◌else◌, length, Bytes, eq_bytes, eq_bytes_refl, arith, inl, inr, Bool-cases,
}
use backup_shield.Base.Result.{Result, ok, err}
use backup_shield.Hash.{Hashes, compute_checksum}
use backup_shield.Pack.Name.{pack_filename, temp_filename}
use backup_shield.Pack.Disk.{Disk, read_file, write_file, rename_file, read-write, read-rename}
use backup_shield.Pack.Format.{Chunk, header_size, pack_body, locations}
use backup_shield.Pack.Writer.{
  PackWriter, FlushResult, FlushStep, Io, Flushed, flush, flush_body, flush_read_back,
  flush_checksum, flush_rename, make_dir, create_temp, write_body, append_checksum, rename_temp,
}

-- What a flush may leave of the files, for the pack `id`: all but the temporary file is as before.
abbrev pub SameButTemp : ℕ → Disk → Disk → Type 0
SameButTemp id before after =
    (name : Bytes)
    → eq_bytes (temp_filename id) name ≡ false
    → read_file after name ≡ read_file before name

-- The new pack is there, the temporary file is gone, and all else is as before.
abbrev pub OnePackMore : ℕ → Bytes → Disk → Disk → Type 0
OnePackMore id content before after =
    (name : Bytes)
    → read_file after name ≡ (
        if eq_bytes (pack_filename id) name
        then some content
        else if eq_bytes (temp_filename id) name
        then none
        else read_file before name)

-- A failed flush.
pub record Kept (w : PackWriter) (disk : Disk) (f : Flushed) : Type 0 where
  pub buffer : f.writer.buffer ≡ w.buffer
  pub buffer_bytes : f.writer.buffer_bytes ≡ w.buffer_bytes
  pub next_pack_id : f.writer.next_pack_id ≡ (w.next_pack_id + 1) % 2 ^ 64
  pub files : SameButTemp w.next_pack_id disk f.disk

-- A flush that wrote a pack.
pub record Written (H : Hashes) (w : PackWriter) (disk : Disk) (f : Flushed) (r : FlushResult)
    : Type 0 where
  pub pack_id : r.pack_id ≡ w.next_pack_id
  pub pack_file : r.pack_file ≡ pack_filename w.next_pack_id
  pub chunk_count : r.chunk_count ≡ length w.buffer
  pub chunk_locations : r.chunk_locations ≡ locations header_size w.buffer
  pub next_pack_id : f.writer.next_pack_id ≡ (w.next_pack_id + 1) % 2 ^ 64
  pub buffer : f.writer.buffer ≡ []
  pub buffer_bytes : f.writer.buffer_bytes ≡ 0
  pub target_size : f.writer.target_size ≡ w.target_size
  pub files :
      let body = pack_body w.next_pack_id w.buffer in
      OnePackMore w.next_pack_id (body ++ compute_checksum H body) disk f.disk

abbrev pub Outcome :
    Hashes → PackWriter → Disk → Flushed → Result FlushStep (Option FlushResult) → Type 0
Outcome H w disk f (err step) = Kept w disk f
Outcome H w disk f (ok none) = (w.buffer ≡ []) × (f.writer ≡ w) × (f.disk ≡ disk)
Outcome H w disk f (ok (some r)) = Written H w disk f r

abbrev bumped : PackWriter → PackWriter
bumped w = record w { next_pack_id = (w.next_pack_id + 1) % 2 ^ 64 }

nil_of_length : (buffer : List Chunk) → leb (length buffer) 0 ≡ true → buffer ≡ []
nil_of_length [] h = refl
nil_of_length (chunk ∷ buffer) h = ground arith

same : (id : ℕ) (disk : Disk) → SameButTemp id disk disk
same id disk name h = refl

temp_only :
    (id : ℕ) (before after : Disk) (content : Bytes)
    → SameButTemp id before after
    → SameButTemp id before (write_file after (temp_filename id) content)
temp_only id before after content k name h =
    rw (read-write after (temp_filename id) name content) (rw h (k name h))

found_temp :
    (id : ℕ) (disk : Disk) (content : Bytes)
    → read_file (write_file disk (temp_filename id) content) (temp_filename id) ≡ some content
found_temp id disk content =
    rw (read-write disk (temp_filename id) (temp_filename id) content)
      (rw (eq_bytes_refl (temp_filename id)))

renamed :
    (id : ℕ) (before after : Disk) (content : Bytes)
    → SameButTemp id before after
    → OnePackMore id content before (
        rename_file
          (write_file after (temp_filename id) content)
          (temp_filename id)
          (pack_filename id))
renamed id before after content k name =
    rw
      (read-rename (write_file after (temp_filename id) content) (temp_filename id)
        (pack_filename id) name content (found_temp id after content))
      (ground (arith, read-write after (temp_filename id) name content, k name))

module _ (H : Hashes) (io : Io) where
  abbrev Good : PackWriter → Disk → Flushed → Type 0
  Good w disk f = Outcome H w disk f f.result

  read_back_body :
      (w : PackWriter) (id : ℕ) (disk : Disk) (body : Bytes)
      → flush_read_back H io w id (write_file disk (temp_filename id) body) ≡ (
          if io.fails FlushStep.read_back
          then record {
            writer = w;
            disk = write_file disk (temp_filename id) body;
            result = err FlushStep.read_back;
          }
          else flush_checksum H io w id (write_file disk (temp_filename id) body) body)
  unfolding flush_read_back
  read_back_body w id disk body = rw (found_temp id disk body, flush_read_back)

  module _ (w : PackWriter) (disk : Disk) where
    abbrev id : ℕ
    id = w.next_pack_id

    abbrev body : Bytes
    body = pack_body id w.buffer

    rename_Good :
        (after : Disk)
        → SameButTemp id disk after
        → Good w disk (
            flush_rename H io
              (bumped w)
              id
              (write_file after (temp_filename id) (body ++ compute_checksum H body)))
    unfolding flush_rename
    rename_Good after k = elim (Bool-cases (io.fails rename_temp)) [
      | inl fail ↦ rw fail (record {
        buffer = refl;
        buffer_bytes = refl;
        next_pack_id = refl;
        files = temp_only id disk after _ k;
      })
      | inr pass ↦ rw pass (record {
        pack_id = refl;
        pack_file = refl;
        chunk_count = refl;
        chunk_locations = refl;
        next_pack_id = refl;
        buffer = refl;
        buffer_bytes = refl;
        target_size = refl;
        files = renamed id disk after _ k;
      })
    ]

    checksum_Good :
        (after : Disk)
        → SameButTemp id disk after
        → Good w disk (flush_checksum H io (bumped w) id after body)
    unfolding flush_checksum
    checksum_Good after k = elim (Bool-cases (io.fails append_checksum)) [
      | inl fail ↦ rw fail (record {
        buffer = refl;
        buffer_bytes = refl;
        next_pack_id = refl;
        files = temp_only id disk after _ k;
      })
      | inr pass ↦ rw pass (rename_Good after k)
    ]

    read_back_Good :
        Good w disk (flush_read_back H io (bumped w) id (write_file disk (temp_filename id) body))
    read_back_Good =
        let k = temp_only id disk disk body (same id disk) in
        rw (read_back_body (bumped w) id disk body)
          (elim (Bool-cases (io.fails FlushStep.read_back)) [
            | inl fail ↦
                rw fail
                  (record { buffer = refl; buffer_bytes = refl; next_pack_id = refl; files = k })
            | inr pass ↦ rw pass (checksum_Good (write_file disk (temp_filename id) body) k)
          ])

    body_Good : Good w disk (flush_body H io (bumped w) id disk)
    unfolding flush_body
    body_Good = elim (Bool-cases (io.fails create_temp)) [
      | inl fail ↦
          rw fail (record {
            buffer = refl;
            buffer_bytes = refl;
            next_pack_id = refl;
            files = same id disk;
          })
      | inr pass ↦ rw pass (elim (Bool-cases (io.fails write_body)) [
        | inl fail ↦ rw fail (record {
          buffer = refl;
          buffer_bytes = refl;
          next_pack_id = refl;
          files = temp_only id disk disk _ (same id disk);
        })
        | inr pass' ↦ rw pass' read_back_Good
      ])
    ]

  -- Whatever the file system answers: a flush that fails keeps the buffer, takes one pack id,
  -- modulo 2^64, and changes no file but the temporary one. A flush that reports a pack has
  -- written the whole pack with its checksum under the name of its id, removed the temporary
  -- file, changed no other file and emptied the buffer, and it reports the place of every chunk;
  -- the next pack id is one more, modulo 2^64. A flush of an empty buffer changes nothing.
  pub flush-Outcome :
      (w : PackWriter) (disk : Disk)
      → Outcome H w disk (flush H io w disk) (flush H io w disk).result
  unfolding flush
  flush-Outcome w disk = elim (Bool-cases (leb (length w.buffer) 0)) [
    | inl empty ↦ rw empty (nil_of_length w.buffer empty, refl, refl)
    | inr full ↦ rw full (elim (Bool-cases (io.fails make_dir)) [
      | inl fail ↦ rw fail (record {
        buffer = refl;
        buffer_bytes = refl;
        next_pack_id = refl;
        files = same w.next_pack_id disk;
      })
      | inr pass ↦ rw pass (body_Good w disk)
    ])
  ]
