-- ===== src/Compact/Gather.antt =====
-- The first loop of `compact_packs`: the chunks that are in use.
use backup_shield.Base.{
  ℕ, zero, suc, ◌^◌, ◌<◌, ◌≡◌, refl, sym, ap, ◌∙◌, subst, inl, inr, Bool, true, Option, none, some,
  List, [], ◌∷◌, ◌++◌, ◌==◌, leb, length, length-take, take, drop, All, All-append, Any,
  Any-append_left, Any-append_right, Bytes, arith, Bool-cases, from_le_bytes, eq_bytes,
}
use backup_shield.Base.Result.{Result, ok, err, ensure, ok_or, Result-cases, >>=-eq-ok}
use backup_shield.Base.Utf8.{is_utf8}
use backup_shield.Hash.{Hashes, compute_hash}
use backup_shield.Pack.Name.{pack_filename}
use backup_shield.Pack.Disk.{Disk, read_file}
use backup_shield.Pack.Format.{Location, chunk_marker}
use backup_shield.Pack.Reader.{
  ListError, read_chunk, read_entry, read_exact, read_marker, list_chunks, no_file,
  invalid_chunk_marker, invalid_encoding, hash_mismatch, data_corruption,
}
use backup_shield.Pack.RoundTrip.{IsChunk}
use backup_shield.Pack.Sound.{read_chunk_sound}
use backup_shield.Compact.{
  CompactError, Gathered, keep_chunk, discard_chunk, gather_chunk, gather_chunks, gather_pack,
  gather_packs,
}
use backup_shield.Compact.Packs.{Among}

abbrev pub AreBytes : Bytes → Type 0
AreBytes = All (λ b. b < 256)

drop-AreBytes : (n : ℕ) (bytes : Bytes) → AreBytes bytes → AreBytes (drop n bytes)
drop-AreBytes zero bytes h = h
drop-AreBytes (suc n) [] h = tt
drop-AreBytes (suc n) (b ∷ bytes) h = drop-AreBytes n bytes h.1

take-AreBytes : (n : ℕ) (bytes : Bytes) → AreBytes bytes → AreBytes (take n bytes)
take-AreBytes zero bytes h = tt
take-AreBytes (suc n) [] h = tt
take-AreBytes (suc n) (b ∷ bytes) h = (h.0, take-AreBytes n bytes h.1)

-- A number of four bytes.
four_bytes : (bytes : Bytes) → AreBytes bytes → length bytes ≡ 4 → from_le_bytes bytes < 2 ^ 32
unfolding from_le_bytes
four_bytes (a ∷ b ∷ c ∷ d ∷ []) h size = omega (arith, h.0, h.1.0, h.1.1.0, h.1.1.1.0)
four_bytes [] h size = absurd (omega arith)
four_bytes (a ∷ []) h size = absurd (omega arith)
four_bytes (a ∷ b ∷ []) h size = absurd (omega arith)
four_bytes (a ∷ b ∷ c ∷ []) h size = absurd (omega arith)
four_bytes (a ∷ b ∷ c ∷ d ∷ e ∷ bytes) h size = absurd (omega arith)

read_exact_parts :
    (n : ℕ) (bytes xs ys : Bytes)
    → read_exact n bytes ≡ ok (xs, ys)
    → (xs ≡ take n bytes) × (ys ≡ drop n bytes) × (length xs ≡ n)
unfolding read_exact
read_exact_parts n bytes xs ys e = elim (Bool-cases (leb n (length bytes))) [
  | inl enough ↦
      let same = rw (enough, read_exact) at e in
      (cc, cc, ap length (cc same) ∙ (length-take n bytes ∙ ground (arith, enough)))
  | inr short ↦ absurd (cc (rw (short, read_exact) at e))
]

read_marker_rest :
    (bytes rest : Bytes) (marker : ℕ)
    → read_marker bytes ≡ ok (marker, rest)
    → AreBytes bytes
    → AreBytes rest
unfolding read_marker
read_marker_rest [] rest marker e h = absurd (cc)
read_marker_rest (m ∷ bytes) rest marker e h = subst AreBytes (cc) h.1

module _ (H : Hashes) where
  read_entry_small :
      (at_offset hash bytes : Bytes)
      → AreBytes at_offset
      → read_entry H at_offset hash ≡ ok bytes
      → length bytes < 2 ^ 32
  unfolding read_entry
  read_entry_small at_offset hash bytes h done =
      let ((marker, after_marker), marked, s1) = >>=-eq-ok (read_marker at_offset) _ done in
      let (u1, e1, s2) = >>=-eq-ok (ensure (marker == chunk_marker) invalid_chunk_marker) _ s1 in
      let ((hash_buf, after_hash), hashed, s3) = >>=-eq-ok (read_exact 64 after_marker) _ s2 in
      let (u2, e2, s4) = >>=-eq-ok (ensure (is_utf8 hash_buf) invalid_encoding) _ s3 in
      let (u3, e3, s5) = >>=-eq-ok (ensure (eq_bytes hash_buf hash) hash_mismatch) _ s4 in
      let ((size_buf, after_size), sized, s6) = >>=-eq-ok (read_exact 4 after_hash) _ s5 in
      let ((content, rest), filled, s7) =
        >>=-eq-ok (read_exact (from_le_bytes size_buf) after_size) _ s6 in
      let (u4, e4, s8) =
        >>=-eq-ok (ensure (eq_bytes (compute_hash H content) hash) data_corruption) _ s7 in
      let rest_marker = read_marker_rest at_offset after_marker marker marked h in
      let (x1, behind, n1) = read_exact_parts 64 after_marker hash_buf after_hash hashed in
      let (x2, y2, n2) = read_exact_parts 4 after_hash size_buf after_size sized in
      let (x3, y3, n3) = read_exact_parts (from_le_bytes size_buf) after_size content rest filled in
      let bounded : from_le_bytes size_buf < 2 ^ 32 =
        four_bytes size_buf
          (subst AreBytes (sym x2) (
            take-AreBytes 4 after_hash
              (subst AreBytes (sym behind) (drop-AreBytes 64 after_marker rest_marker))))
          n2 in
      let same : content ≡ bytes = cc s8 in omega (arith, bounded, n3, ap length same)

  -- Every file of the disk is made of bytes.
  abbrev pub FilesOfBytes : Disk → Type 0
  FilesOfBytes disk = (name content : Bytes) → read_file disk name ≡ some content → AreBytes content

  pub read_chunk-IsChunk :
      (disk : Disk) (pack_id offset : ℕ) (hash bytes : Bytes)
      → FilesOfBytes disk
      → read_chunk H disk pack_id offset hash ≡ ok bytes
      → IsChunk H (hash, bytes)
  unfolding read_chunk
  read_chunk-IsChunk disk pack_id offset hash bytes files done =
      let (file, found, read) =
        >>=-eq-ok (ok_or (read_file disk (pack_filename pack_id)) no_file) _ done in
      (
        sym (read_chunk_sound H disk pack_id offset hash bytes (unfold read_chunk in done)),
        read_entry_small (drop offset file) hash bytes
            (drop-AreBytes offset file
              (files (pack_filename pack_id) file (found_file _ file found)))
            read,
      )
    where
      found_file : (o : Option Bytes) (file : Bytes) → ok_or o no_file ≡ ok file → o ≡ some file
      found_file none file e = absurd (cc)
      found_file (some f) file e = cc

-- The hash is in the list of a pack.
abbrev pub Listed : Bytes → List Location → Type 0
Listed h locs = Any (λ loc. loc.0 ≡ h) locs

-- The chunk of the hash is listed for one of the packs.
abbrev pub ListedIn : Disk → Bytes → List ℕ → Type 0
ListedIn disk h pack_ids =
    Any (λ id. (locs : List Location) × (list_chunks disk id ≡ ok locs) × Listed h locs) pack_ids

module _ (H : Hashes) (live : Bytes → Bool) (disk : Disk) (files : FilesOfBytes H disk) where
  -- The chunks stay chunks, and none is lost.
  pub record Grown (before after : Gathered) : Type 0 where
    pub chunks : All (IsChunk H) before.live_chunks → All (IsChunk H) after.live_chunks
    pub kept : (h : Bytes) → Among h before.live_chunks → Among h after.live_chunks

  Grown-trans : (a b c : Gathered) → Grown a b → Grown b c → Grown a c
  Grown-trans a b c p q = record {
    chunks = λ h. q.chunks (p.chunks h);
    kept = λ h among. q.kept h (p.kept h among);
  }

  kept_chunks :
      (g g' : Gathered) (hash bytes : Bytes)
      → keep_chunk g hash (ok bytes) ≡ ok g'
      → g.live_chunks ++ (hash, bytes) ∷ [] ≡ g'.live_chunks
  unfolding keep_chunk
  kept_chunks g g' hash bytes e = ground arith

  discarded_chunks :
      (g g' : Gathered) (stored_size : ℕ)
      → ◌≡◌ {A = Result CompactError Gathered} (ok (discard_chunk g stored_size)) (ok g')
      → g.live_chunks ≡ g'.live_chunks
  unfolding discard_chunk
  discarded_chunks g g' stored_size e = ground arith

  gather_chunk-Grown :
      (pack_id offset stored_size : ℕ) (hash : Bytes) (g g' : Gathered)
      → gather_chunk H live disk pack_id (hash, offset, stored_size) g ≡ ok g'
      → Grown g g' × (live hash ≡ true → Among hash g'.live_chunks)
  unfolding gather_chunk keep_chunk discard_chunk
  gather_chunk-Grown pack_id offset stored_size hash g g' done = elim (Bool-cases (live hash)) [
    | inl used ↦ elim (Result-cases (read_chunk H disk pack_id offset hash)) [
      | inl (e, failed) ↦ absurd (cc (rw (used, failed, gather_chunk, keep_chunk) at done))
      | inr (bytes, read) ↦
          let same : g.live_chunks ++ (hash, bytes) ∷ [] ≡ g'.live_chunks =
            kept_chunks g g' hash bytes (rw (used, read, gather_chunk, keep_chunk) at done) in
          (
            record {
              chunks = λ h. subst (All (IsChunk H)) same (
                  All-append (IsChunk H) g.live_chunks ((hash, bytes) ∷ []) h
                    (read_chunk-IsChunk H disk pack_id offset hash bytes files read, tt));
              kept = λ h among.
                  subst (Among h) same
                    (Any-append_left (λ c. c.0 ≡ h) g.live_chunks ((hash, bytes) ∷ []) among);
            },
            λ l.
                subst (Among hash) same (
                  Any-append_right (λ c. c.0 ≡ hash) g.live_chunks ((hash, bytes) ∷ []) (inl refl)),
          )
    ]
    | inr unused ↦
        let same : g.live_chunks ≡ g'.live_chunks =
          discarded_chunks g g' stored_size (rw (unused, gather_chunk) at done) in
        (
          record {
            chunks = λ h. subst (All (IsChunk H)) same h;
            kept = λ h among. subst (Among h) same among;
          },
          λ l. absurd (cc (l, unused)),
        )
  ]

  gather_chunks-Grown :
      (pack_id : ℕ) (locs : List Location) (g g' : Gathered)
      → gather_chunks H live disk pack_id locs g ≡ ok g'
      → Grown g g' × ((h : Bytes) → live h ≡ true → Listed h locs → Among h g'.live_chunks)
  unfolding gather_chunks
  gather_chunks-Grown pack_id [] g g' done =
      let same : g ≡ g' = cc in
      (
        record {
          chunks = λ h. subst (λ t. All (IsChunk H) t.live_chunks) same h;
          kept = λ h among. subst (λ t. Among h t.live_chunks) same among;
        },
        λ h l listed. absurd listed,
      )
  gather_chunks-Grown pack_id (loc ∷ locs) g g' done =
      let (mid, one, later) = >>=-eq-ok (gather_chunk H live disk pack_id loc g) _ done in
      let (first, kept_first) = gather_chunk-Grown pack_id loc.1 loc.2 loc.0 g mid one in
      let (rest, kept_rest) = gather_chunks-Grown pack_id locs mid g' later in
      (
        Grown-trans g mid g' first rest,
        λ h l listed. elim listed [
          | inl same ↦ rest.kept h (
              subst (λ t. Among t mid.live_chunks) same
                (kept_first (subst (λ t. live t ≡ true) (sym same) l)))
          | inr other ↦ kept_rest h l other
        ],
      )

  pub gather_packs-Grown :
      (pack_ids : List ℕ) (g g' : Gathered)
      → gather_packs H live disk pack_ids g ≡ ok g'
      → Grown g g'
        × ((h : Bytes) → live h ≡ true → ListedIn disk h pack_ids → Among h g'.live_chunks)
  unfolding gather_packs gather_pack
  gather_packs-Grown [] g g' done =
      let same : g ≡ g' = cc in
      (
        record {
          chunks = λ h. subst (λ t. All (IsChunk H) t.live_chunks) same h;
          kept = λ h among. subst (λ t. Among h t.live_chunks) same among;
        },
        λ h l listed. absurd listed,
      )
  gather_packs-Grown (id ∷ pack_ids) g g' done =
      let (mid, one, later) =
        >>=-eq-ok (gather_pack H live disk id (list_chunks disk id) g) _ done in
      let (rest, kept_rest) = gather_packs-Grown pack_ids mid g' later in
      let (locs, listing, gathered) = pack_parts id (list_chunks disk id) g mid one in
      let (first, kept_first) = gather_chunks-Grown id locs g mid gathered in
      (
        Grown-trans g mid g' first rest,
        λ h l listed. elim listed [
          | inl (own, own_listing, here) ↦
              rest.kept h (kept_first h l (subst (Listed h) (cc (own_listing, listing)) here))
          | inr other ↦ kept_rest h l other
        ],
      )
    where
      pack_parts :
          (id : ℕ) (r : Result ListError (List Location)) (g mid : Gathered)
          → gather_pack H live disk id r g ≡ ok mid
          → (locs : List Location) × (r ≡ ok locs) × (gather_chunks H live disk id locs g ≡ ok mid)
      pack_parts id (err e) g mid done = absurd (cc)
      pack_parts id (ok locs) g mid done = (locs, refl, done)
