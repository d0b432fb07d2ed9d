-- ===== src/Audit/Listed.antt =====
-- Tables in the order of their keys, and the sessions that the audit lists from one.
use bilive_rec.Prelude.{
  ℕ, ◌≡◌, ◌<◌, ◌≤◌, refl, sym, ap, subst, Bool, true, false, some, List, [], ◌∷◌, All, find, keep,
  count_where, ◌==◌, arith, Bool-cases, inl, inr, ==_iff, some_inj,
}
use bilive_rec.Model.Session.{LiveSession, is_closed}
use bilive_rec.Store.Table.{Table, Each, get, values}
use bilive_rec.Store.Keys.{id_key}
use bilive_rec.Rooms.Owned.{Sessions, Rooms, Agree, SessionFits, one_session}
use bilive_rec.Audit.Ownership.{non_closed}

module _ {V : Type 0} where
  abbrev pub Beyond : ℕ → Table ℕ V → Type 0
  Beyond k [] = Unit
  Beyond k ((j, v) ∷ m) = (k < j) × Beyond k m

  -- The keys increase, as those of a redb table do.
  abbrev pub IsAscending : Table ℕ V → Type 0
  IsAscending [] = Unit
  IsAscending ((k, v) ∷ m) = Beyond k m × IsAscending m

  abbrev pub Stored : Table ℕ V → Table ℕ V → Type 0
  Stored whole part = Each (λ k v. get whole k ≡ some v) part

  Stored-Beyond :
      (k : ℕ) (v : V) (m part : Table ℕ V)
      → Beyond k part
      → Stored m part
      → Stored ((k, v) ∷ m) part
  unfolding get
  Stored-Beyond k v m [] b h = tt
  Stored-Beyond k v m ((j, w) ∷ part) (lt, b) (e, h) =
      let apart : (k == j) ≡ false = ground (arith, lt) in
      (rw apart e, Stored-Beyond k v m part b h)

  -- Each entry is found under its key.
  pub Stored-self : (m : Table ℕ V) → IsAscending m → Stored m m
  unfolding get
  Stored-self [] h = tt
  Stored-self ((k, v) ∷ m) (b, h) =
      let same : (k == k) ≡ true = ground arith in
      (rw same refl, Stored-Beyond k v m m b (Stored-self m h))

module _ (sessions : Sessions) (rooms : Rooms) (agree : Agree sessions rooms) where
  -- What is known of a session that the audit lists.
  pub record Listed (s : LiveSession) : Type 0 where
    pub unclosed : is_closed s.lifecycle ≡ false
    pub stored : get sessions s.id ≡ some s

  stored_id : (k : ℕ) (s : LiveSession) → get sessions k ≡ some s → s.id ≡ k
  stored_id k s e = (subst (λ o. SessionFits k o rooms) e (agree.session k)).0

  -- Taking the closed sessions away, one entry at a time.
  drop_closed :
      (s : LiveSession) (list : List LiveSession)
      → is_closed s.lifecycle ≡ true
      → non_closed (s ∷ list) ≡ non_closed list
  unfolding non_closed keep
  drop_closed s list e = rw (non_closed, keep, e) refl

  keep_unclosed :
      (s : LiveSession) (list : List LiveSession)
      → is_closed s.lifecycle ≡ false
      → non_closed (s ∷ list) ≡ s ∷ non_closed list
  unfolding non_closed keep
  keep_unclosed s list e = rw (non_closed, keep, e) refl

  pub non_closed-Listed :
      (part : Sessions) → Stored sessions part → All Listed (non_closed (values part))
  unfolding non_closed keep
  non_closed-Listed [] h = tt
  non_closed-Listed ((k, s) ∷ part) (e, h) = elim (Bool-cases (is_closed s.lifecycle)) [
    | inl closed ↦
        subst (All Listed) (sym (drop_closed s (values part) closed)) (non_closed-Listed part h)
    | inr open_s ↦ subst (All Listed) (sym (keep_unclosed s (values part) open_s)) (
      record {
        unclosed = open_s;
        stored = subst (λ i. get sessions i ≡ some s) (sym (stored_id k s e)) e;
      },
      non_closed-Listed part h,
    )
  ]

  abbrev pub of_room : ℕ → LiveSession → Bool
  of_room room_id t = t.room_id == room_id

  -- Behind a session that is not closed there is none of its room.
  none_behind :
      (k : ℕ) (s : LiveSession) (part : Sessions)
      → get sessions k ≡ some s
      → is_closed s.lifecycle ≡ false
      → Beyond k part
      → Stored sessions part
      → count_where (of_room s.room_id) (non_closed (values part)) ≡ 0
  unfolding count_where non_closed keep
  none_behind k s [] at open_s b h = refl
  none_behind k s ((j, t) ∷ part) at open_s (lt, b) (e, h) =
      elim (Bool-cases (is_closed t.lifecycle)) [
        | inl closed ↦
            subst (λ l. count_where (of_room s.room_id) l ≡ 0)
              (sym (drop_closed t (values part) closed)) (none_behind k s part at open_s b h)
        | inr open_t ↦
            subst (λ l. count_where (of_room s.room_id) l ≡ 0)
              (sym (keep_unclosed t (values part) open_t))
              (elim (Bool-cases (of_room s.room_id t)) [
                | inl same ↦
                    let clash =
                      one_session s t agree at e (sym ((==_iff _ _).0 same)) open_s open_t in
                    absurd (omega (arith, lt, clash))
                | inr other ↦ rw other (none_behind k s part at open_s b h)
              ])
      ]

  pub one_of_room :
      (room_id : ℕ) (part : Sessions)
      → IsAscending part
      → Stored sessions part
      → count_where (of_room room_id) (non_closed (values part)) ≤ 1
  unfolding count_where non_closed keep
  one_of_room room_id [] a h = omega arith
  one_of_room room_id ((k, s) ∷ part) (b, a) (e, h) = elim (Bool-cases (is_closed s.lifecycle)) [
    | inl closed ↦
        subst (λ l. count_where (of_room room_id) l ≤ 1) (sym (drop_closed s (values part) closed))
          (one_of_room room_id part a h)
    | inr open_s ↦
        subst (λ l. count_where (of_room room_id) l ≤ 1)
          (sym (keep_unclosed s (values part) open_s))
          (elim (Bool-cases (of_room room_id s)) [
            | inl same ↦ rw same (
                omega (
                  arith,
                  subst (λ r. count_where (of_room r) (non_closed (values part)) ≡ 0)
                      ((==_iff _ _).0 same) (none_behind k s part e open_s b h),
                ))
            | inr other ↦ rw other (one_of_room room_id part a h)
          ])
  ]

  -- A stored session that is not closed is found in the list by its identifier.
  pub find-non_closed :
      (id : ℕ) (s : LiveSession) (part : Sessions)
      → Stored sessions part
      → get part id ≡ some s
      → is_closed s.lifecycle ≡ false
      → find (λ t. t.id == id) (non_closed (values part)) ≡ some s
  unfolding find non_closed keep get
  find-non_closed id s [] h at open_s = cc
  find-non_closed id s ((k, t) ∷ part) (e, h) at open_s = elim (Bool-cases (k == id)) [
    | inl here ↦
        let same : t ≡ s = some_inj (rw here at at) in
        let open_t : is_closed t.lifecycle ≡ false =
          subst (λ x. is_closed x.lifecycle ≡ false) (sym same) open_s in
        let matches : (t.id == id) ≡ true =
          subst (λ i. (i == id) ≡ true) (sym (stored_id k t e)) here in
        subst (λ l. find (λ x. x.id == id) l ≡ some s) (sym (keep_unclosed t (values part) open_t))
          (rw matches (ap some same))
    | inr there ↦
        let differs : (t.id == id) ≡ false =
          subst (λ i. (i == id) ≡ false) (sym (stored_id k t e)) there in
        let later = find-non_closed id s part h (rw there at at) open_s in
        elim (Bool-cases (is_closed t.lifecycle)) [
          | inl closed ↦
              subst (λ l. find (λ x. x.id == id) l ≡ some s)
                (sym (drop_closed t (values part) closed)) later
          | inr open_t ↦
              subst (λ l. find (λ x. x.id == id) l ≡ some s)
                (sym (keep_unclosed t (values part) open_t)) (rw differs later)
        ]
  ]
