-- ===== src/Flv/Stream.antt =====
-- Reading from and writing to byte streams in recorder/flv.rs.
use bilive_rec.Prelude.{ℕ, zero, suc, ◌≡◌, refl, List, [], ◌∷◌, ◌++◌, length, ap, subst, arith}
use bilive_rec.Prelude.Outcome.{Outcome, ok, err, ◌>>=◌, chain_ok, ok_inj}

-- std::io::Error, by the failures that this file makes and the one of `read_exact`.
pub data IoError : Type 0 where
  unexpected_eof : IoError
  invalid_signature : IoError
  unsupported_version : ℕ → IoError
  unsupported_offset : ℕ → IoError
  invalid_tag_type : IoError
  invalid_previous_tag_size : ℕ → ℕ → IoError
  data_size_exceeds : IoError
  stream_id_exceeds : IoError
  data_size_mismatch : IoError

-- A reader is the bytes it still has; what is read comes with the bytes left.
abbrev pub Read : Type 0 → Type 0
Read A = List ℕ → Outcome IoError (A × List ℕ)

-- A writer is the bytes it has taken so far.
abbrev pub Write : Type 0
Write = List ℕ → Outcome IoError (List ℕ)

-- Read::read_exact into a buffer of n bytes.
unfoldable pub read_exact : ℕ → Read (List ℕ)
read_exact zero source = ok ([], source)
read_exact (suc n) [] = err unexpected_eof
read_exact (suc n) (b ∷ source) = do (buf, rest) ← read_exact n source; ok (b ∷ buf, rest)

-- Write::write_all to a `Vec`, which takes all.
unfoldable pub write_all : List ℕ → Write
write_all bytes out = ok (out ++ bytes)

pub read_exact-append : (buf rest : List ℕ) → read_exact (length buf) (buf ++ rest) ≡ ok (buf, rest)
unfolding read_exact
read_exact-append [] rest = refl
read_exact-append (b ∷ buf) rest = rw (read_exact-append buf rest) refl

-- What was read stands in front of what is left.
pub read_exact_takes :
    (n : ℕ) (source : List ℕ) (p : List ℕ × List ℕ)
    → read_exact n source ≡ ok p
    → (source ≡ p.0 ++ p.1) × (length p.0 ≡ n)
unfolding read_exact
read_exact_takes zero source p e =
    subst (λ q. (source ≡ q.0 ++ q.1) × (length q.0 ≡ 0)) (ok_inj e) (refl, refl)
read_exact_takes (suc n) [] p e = absurd cc
read_exact_takes (suc n) (b ∷ source) p e =
    let (q, r, f) = chain_ok (read_exact n source) _ _ e in
    let (split, size) = read_exact_takes n source q r in
    subst (λ t. (b ∷ source ≡ t.0 ++ t.1) × (length t.0 ≡ suc n)) (ok_inj f)
      (ap (λ (t : List ℕ). b ∷ t) split, omega (arith, size))
