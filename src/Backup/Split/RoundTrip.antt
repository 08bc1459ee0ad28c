-- ===== src/Backup/Split/RoundTrip.antt =====
-- `SplitFile`, and `AssembleFiles` on what it leaves.
use mathlib.Core.List.{Permᴰ}
use fcstask_backend.Backup.Bytes.{Bytes, eq_bytes, eq_bytes_comm, eq_bytes_self, eq_bytes→eq}
use fcstask_backend.Backup.Catalog.{SplitInfo}
use fcstask_backend.Backup.Split.{
  Files, assemble_file, assemble_one, assembled, count_differs, part_name, read_parts, remove_file,
  remove_parts, set_file, sort_parts, split_content, split_file, verified,
}
use fcstask_backend.Backup.Split.Names.{path-ne-part_name}
use fcstask_backend.Backup.Split.Order.{length-count, length-map, length-perm, sort_parts-names}
use fcstask_backend.Backup.Split.Parts.{
  NoParts, count_from, names, path_apart, piece_at, read_parts-remove_file, read_parts-set_parts,
  remove_file-other, set_parts, set_parts-other, split_rounds-set_parts,
}
use fcstask_backend.Backup.Split.Pieces.{
  IsPiece, chunks, chunks-IsPiece, flat-chunks, length-chunks,
}
use fcstask_backend.Errors.{other_error}
use fcstask_backend.Errors.Action.{Result, bind, err, ok}
use fcstask_backend.Prelude.{
  All, Bool, Bool-cases, List, String, [], any, ap, arith, eq_iff, eq_self, false, if◌then◌else◌,
  inl, inr, length, map, none, or_false, refl, some, suc, sym, true, zero, ℕ, ◌+◌, ◌<◌, ◌^◌, ◌∙◌,
  ◌∷◌, ◌≡◌, ◌≤◌,
}

module _ (path : Bytes) where
  remove_parts-other :
      (ps : List Bytes) (files : Files) (p : Bytes)
      → any (eq_bytes p) ps ≡ false
      → remove_parts ps files p ≡ files p
  unfolding remove_parts
  remove_parts-other [] files p h = refl
  remove_parts-other (q ∷ qs) files p h =
      let (a, b) = or_false (eq_bytes p q) (any (eq_bytes p) qs) h in
      remove_parts-other qs (remove_file q files) p b ∙ remove_file-other q p files a

  remove_parts-absent :
      (ps : List Bytes) (files : Files) (p : Bytes)
      → files p ≡ none
      → remove_parts ps files p ≡ none
  unfolding remove_parts
  remove_parts-absent [] files p h = h
  remove_parts-absent (q ∷ qs) files p h =
      remove_parts-absent qs (remove_file q files) p (still (eq_bytes p q))
    where
      still : (b : Bool) → (if b then none else files p) ≡ none
      still true = refl
      still false = h

  remove_parts-gone :
      (ps : List Bytes) (files : Files) (p : Bytes)
      → any (eq_bytes p) ps ≡ true
      → remove_parts ps files p ≡ none
  unfolding remove_parts
  remove_parts-gone [] files p h = cc
  remove_parts-gone (q ∷ qs) files p h = elim (Bool-cases (eq_bytes p q)) [
    | inl e ↦ remove_parts-absent qs (remove_file q files) p (rw e refl)
    | inr e ↦ remove_parts-gone qs (remove_file q files) p (sym (rw e refl) ∙ h)
  ]

  absent_names :
      (n k : ℕ) (files : Files) (p : Bytes)
      → n + k ≤ 2 ^ 63
      → NoParts path n files
      → any (eq_bytes p) (names path n k) ≡ true
      → files p ≡ none
  absent_names n zero files p bound absent h = cc
  absent_names n (suc k) files p bound absent h =
      elim (Bool-cases (eq_bytes p (part_name path n))) [
        | inl e ↦
            ap files (eq_bytes→eq p (part_name path n) e)
            ∙ absent n (omega arith) (omega (arith, bound))
        | inr e ↦
            absent_names (suc n) k files p (omega (arith, bound))
              (λ i le lt. absent i (omega (arith, le)) lt) (sym (rw e refl) ∙ h)
      ]

  -- After the parts were written, the original removed and written again, and the parts removed.
  same_files :
      (cs : List Bytes) (s : Bytes) (files : Files)
      → 1 + length cs ≤ 2 ^ 63
      → files path ≡ some s
      → NoParts path 1 files
      → (p : Bytes)
      → remove_parts
          (names path 1 (length cs))
          (set_file path s (remove_file path (set_parts path 1 cs files)))
          p
        ≡ files p
  same_files cs s files bound here absent p =
      elim (Bool-cases (any (eq_bytes p) (names path 1 (length cs)))) [
        | inl e ↦
            remove_parts-gone (names path 1 (length cs)) _ p e
            ∙ sym (absent_names 1 (length cs) files p bound absent e)
        | inr e ↦
            remove_parts-other (names path 1 (length cs)) _ p e
            ∙ elim (Bool-cases (eq_bytes p path)) [
              | inl f ↦ rw f (sym (ap files (eq_bytes→eq p path f) ∙ here))
              | inr f ↦ rw f (set_parts-other path 1 cs files p e)
            ]
      ]

  part_in_place :
      (cs : List Bytes) (max : ℕ) (files : Files)
      → 1 + length cs ≤ 2 ^ 63
      → All (IsPiece max) cs
      → (i : ℕ) → 1 ≤ i
      → i ≤ length cs
      → (c : Bytes) × (remove_file path (set_parts path 1 cs files) (part_name path i) ≡ some c)
        × (0 < length c)
        × (length c ≤ max)
  part_in_place cs max files bound all i le most =
      let (c, there, piece) =
        piece_at path (IsPiece max) 1 cs files bound all i le (omega (arith, most)) in
      (
        c,
        remove_file-other path (part_name path i) (set_parts path 1 cs files)
              (eq_bytes_comm (part_name path i) path ∙ path-ne-part_name path i)
            ∙ there,
        piece.0,
        piece.1,
      )

  -- The entry that `splitLargeFiles` records.
  abbrev pub split_info : (Bytes → String) → String → ℕ → Bytes → SplitInfo
  split_info sha256 file parts s = record {
    file = file;
    parts = parts;
    size = length s;
    sha256 = sha256 s;
  }

  -- What a split has to leave: parts of at most `max` bytes and at least one, under the names from the
  -- first on, and not the original; and with the parts listed in any order and the recorded entry, the
  -- file is put together and verified, and every path has again the content that it had.
  abbrev pub Reassembles : (Bytes → String) → String → ℕ → Bytes → Files → ℕ × Files → Type 0
  Reassembles sha256 file max s files (k, split) =
      ((i : ℕ)
        → 1 ≤ i
        → i ≤ k
        → (c : Bytes) × (split (part_name path i) ≡ some c) × (0 < length c) × (length c ≤ max))
      × (split path ≡ none)
      × ((ns : List ℕ)
          → Permᴰ ns (count_from 1 k)
          → (whole : Files) × (assemble_file sha256 (some (split_info sha256 file k s)) path
                (map (part_name path) ns) split
              ≡ ok whole)
            × ((p : Bytes) → whole p ≡ files p))

  -- A file that is there, of less than 2^62 bytes, none of whose parts is there, is split into parts
  -- numbered from 1 on, each of at least one byte and of at most `max` bytes, and the file itself is gone.
  -- From what the split leaves, the file is put together and verified, in whatever order the
  -- parts are listed, and then every path has again the content that it had.
  pub split_file-Reassembles :
      (sha256 : Bytes → String) (file : String) (max : ℕ) (s : Bytes) (files : Files)
      → 0 < max
      → length s < 2 ^ 62
      → files path ≡ some s
      → NoParts path 1 files
      → (r : ℕ × Files) × (split_file max path files ≡ ok r) × Reassembles sha256 file max s files r
  unfolding split_file assemble_file assemble_one
  split_file-Reassembles sha256 file max s files positive short here absent =
      let cs = chunks (suc (length s)) max s in
      let few = length-chunks (suc (length s)) max s in
      let written = set_parts path 1 cs files in
      let split = remove_file path written in
      (
        (length cs, split),
        ap (split_content max path files) here
            ∙ ap (λ x. ok (x.0, remove_file path x.1))
                (split_rounds-set_parts path (suc (length s)) max 1 s files (omega (arith, short))
                  absent),
        (
          λ i le most.
              part_in_place cs max files (omega (arith, few, short))
                (chunks-IsPiece (suc (length s)) max s) i le most,
          rw (eq_bytes_self path) refl,
          λ ns p.
              let sorted = sort_parts-names path (length cs) ns (omega (arith, few, short)) p in
              let content =
                ap (λ l. read_parts l split) sorted
                ∙ read_parts-remove_file path (names path 1 (length cs)) written
                    (path_apart path 1 (length cs))
                ∙ read_parts-set_parts path 1 cs files (omega (arith, few, short))
                ∙ ap some (flat-chunks (suc (length s)) max s positive (omega arith)) in
              let whole = remove_parts (names path 1 (length cs)) (set_file path s split) in
              let same = same_files cs s files (omega (arith, few, short)) here absent in
              (
                whole,
                counted ns (length cs)
                      (length-map (part_name path) ns ∙ length-perm p ∙ length-count 1 (length cs))
                      (split_info sha256 file (length cs) s) refl
                      (bind
                        (assembled path (sort_parts (map (part_name path) ns)) split
                          (read_parts (sort_parts (map (part_name path) ns)) split))
                        λ files'.
                          verified sha256 (some (split_info sha256 file (length cs) s)) files'
                            (files' path))
                    ∙ ap
                        (λ o.
                          bind (assembled path (sort_parts (map (part_name path) ns)) split o)
                            λ files'.
                              verified sha256 (some (split_info sha256 file (length cs) s)) files'
                                (files' path))
                        content
                    ∙ ap
                        (λ l.
                          verified sha256 (some (split_info sha256 file (length cs) s))
                            (remove_parts l (set_file path s split))
                            (remove_parts l (set_file path s split) path))
                        sorted
                    ∙ ap (verified sha256 (some (split_info sha256 file (length cs) s)) whole)
                        (same path ∙ here)
                    ∙ rw (eq_self (length s), (eq_iff (sha256 s) (sha256 s)).1 refl) refl,
                same,
              ),
        ),
      )
    where
      counted :
          (ns : List ℕ) (k : ℕ)
          → length (map (part_name path) ns) ≡ k
          → (info : SplitInfo) → info.parts ≡ k
          → (r : Result Files)
          → (if count_differs (some info) (map (part_name path) ns)
              then err (other_error "wrong number of parts")
              else r)
            ≡ r
      counted ns k e info f r = rw (e, f, eq_self k) refl
