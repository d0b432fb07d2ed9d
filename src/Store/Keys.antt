-- ===== src/Store/Keys.antt =====
-- The keys of the tables: identifiers, `{uuid}:{index:010}` for segments, and the serialised upload
-- target. Identifiers are of fixed width in the key and indexes are padded to ten digits, so the
-- texts sort as the pairs of numbers do; that serialising is injective is taken for granted.
use bilive_rec.Prelude.{
  ℕ, String, ◌≡◌, ◌↔◌, Bool, true, false, List, [], ◌∷◌, ◌&&◌, ◌||◌, ◌==◌, ==_iff, ltb, str_eq,
  eq_iff, FilePath, path_eq, names_eq, arith,
}
use bilive_rec.Model.Target.{UploadTarget, SubmitApi}
use bilive_rec.Store.Table.{Key}

instance abbrev pub id_key : Key ℕ
id_key = record { beq = ◌==◌; blt = ltb; beq_iff = ==_iff }

abbrev pub SegmentKey : Type 0
SegmentKey = ℕ × ℕ

abbrev pub pair_eq : SegmentKey → SegmentKey → Bool
pair_eq (s, i) (t, j) = s == t && i == j

abbrev pub pair_lt : SegmentKey → SegmentKey → Bool
pair_lt (s, i) (t, j) = ltb s t || (s == t && ltb i j)

pub pair_eq_iff : (a b : SegmentKey) → (pair_eq a b ≡ true) ↔ (a ≡ b)
pair_eq_iff (s, i) (t, j) = ground arith

instance abbrev pub segment_key : Key SegmentKey
segment_key = record { beq = pair_eq; blt = pair_lt; beq_iff = pair_eq_iff }

names_eq_iff : (xs ys : List String) → (names_eq xs ys ≡ true) ↔ (xs ≡ ys)
names_eq_iff [] [] = ground arith
names_eq_iff [] (y ∷ ys) = ground arith
names_eq_iff (x ∷ xs) [] = ground arith
names_eq_iff (x ∷ xs) (y ∷ ys) = ground (arith, eq_iff x y, names_eq_iff xs ys)

path_eq_iff : (p q : FilePath) → (path_eq p q ≡ true) ↔ (p ≡ q)
unfolding path_eq
path_eq_iff p q = ground (arith, names_eq_iff p.components q.components)

abbrev pub api_eq : SubmitApi → SubmitApi → Bool
api_eq SubmitApi.app SubmitApi.app = true
api_eq SubmitApi.web SubmitApi.web = true
api_eq SubmitApi.b_cut_android SubmitApi.b_cut_android = true
api_eq _ _ = false

abbrev pub target_eq : UploadTarget → UploadTarget → Bool
target_eq s t =
    str_eq s.principal.credential.name t.principal.credential.name
    && path_eq s.principal.credential.cookie_file t.principal.credential.cookie_file
    && s.principal.expected_mid == t.principal.expected_mid
    && str_eq s.line t.line
    && s.threads == t.threads
    && api_eq s.submit_api t.submit_api

pub target_eq_iff : (s t : UploadTarget) → (target_eq s t ≡ true) ↔ (s ≡ t)
target_eq_iff s t = ground (
  arith,
  eq_iff s.principal.credential.name t.principal.credential.name,
  path_eq_iff s.principal.credential.cookie_file t.principal.credential.cookie_file,
  eq_iff s.line t.line,
)

-- Nothing that is modelled reads the targets in order, so a new one goes to the end.
instance abbrev pub target_key : Key UploadTarget
target_key = record { beq = target_eq; blt = λ s t. false; beq_iff = target_eq_iff }
