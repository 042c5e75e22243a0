-- ===== src/Db/Histories.antt =====
-- How the rows of one table change: in one call, and through a history of calls.
use uza_mobility_bn.Base.{
  ℕ, ◌≡◌, refl, sym, subst, none, some, arith, inl, inr, ◌⊎◌, ==_iff, ◌==◌, Bool, Bool-cases,
  Option-cases,
}
use uza_mobility_bn.Db.{Prisma, PrismaLaws}
use uza_mobility_bn.Db.Origins.{insert_origin}

module _ ⦃P : Prisma⦄ {R : Type 0} where
  open P use {Table, find_unique, insert, update, delete_many}

  -- One call: it leaves the table alone, adds a row that is `Fresh`, or changes one
  -- row by a `Move`.
  pub data TableStep (Fresh : R → Type 0) (Move : R → R → Type 0) (t t' : Table R) : Type 0 where
    kept : t' ≡ t → TableStep Fresh Move t t'
    added : (r : R) → Fresh r → t' ≡ insert t r → TableStep Fresh Move t t'
    -- a row that the same call adds and completes
    completed :
        (r : R) (change : R → R)
        → Fresh (change r)
        → t' ≡ update (insert t r) (P.new_id t) change
        → TableStep Fresh Move t t'
    moved :
        (id : ℕ) (r : R) (change : R → R)
        → find_unique t id ≡ some r
        → Move r (change r)
        → t' ≡ update t id change
        → TableStep Fresh Move t t'
    -- a row that the same call changes twice
    moved_twice :
        (id : ℕ) (r : R) (first second : R → R)
        → find_unique t id ≡ some r
        → Move r (second (first r))
        → t' ≡ update (update t id first) id second
        → TableStep Fresh Move t t'

  -- Such a call, or one that takes away the rows that pass a test.
  pub data TableChange (Fresh : R → Type 0) (Move : R → R → Type 0) (t t' : Table R) : Type 0 where
    stepped : TableStep Fresh Move t t' → TableChange Fresh Move t t'
    removed : (p : ℕ → R → Bool) → t' ≡ delete_many t p → TableChange Fresh Move t t'

  -- Every row of the table has the property.
  abbrev pub EveryRow : (R → Type 0) → Table R → Type 0
  EveryRow Good t = (j : ℕ) (r : R) → find_unique t j ≡ some r → Good r

  -- The calls `Call` of a service in any order, and between them whatever leaves its table alone.
  pub data History {S : Type 0} {Call : Type 0} (run : Call → S → S) (table : S → Table R)
      (start : S) : S → Type 1 where
    begin : History run table start start
    call : {s : S} → History run table start s → (c : Call) → History run table start (run c s)
    elsewhere :
        {s s' : S} → History run table start s → table s' ≡ table s → History run table start s'

  module _ ⦃L : PrismaLaws⦄ where
    open L use {find-update, find-insert, find-new_id, find-delete_many}

    -- What becomes of one row.
    pub row_moves :
        {Fresh : R → Type 0} {Move : R → R → Type 0} {t t' : Table R}
        → TableStep Fresh Move t t'
        → (j : ℕ) (r : R) → find_unique t j ≡ some r
        → (r' : R) × (find_unique t' j ≡ some r') × ((r' ≡ r) ⊎ Move r r')
    row_moves (kept e) j r found = (r, rw e found, inl refl)
    row_moves {t} (added x fresh e) j r found = elim (Bool-cases (P.new_id t == j)) [
      | inl here ↦
          let empty : find_unique t j ≡ none =
            subst (λ k. find_unique t k ≡ none) ((==_iff _ _).0 here) (find-new_id t) in
          absurd (ground (arith, empty, found))
      | inr other ↦ (r, rw (e, find-insert, other) found, inl refl)
    ]
    row_moves {t} (completed x change fresh e) j r found = elim (Bool-cases (P.new_id t == j)) [
      | inl here ↦
          let empty : find_unique t j ≡ none =
            subst (λ k. find_unique t k ≡ none) ((==_iff _ _).0 here) (find-new_id t) in
          absurd (ground (arith, empty, found))
      | inr other ↦ (r, rw (e, find-update, other, find-insert, other) found, inl refl)
    ]
    row_moves {Move} {t} (moved id x change at move e) j r found = elim (Bool-cases (id == j)) [
      | inl here ↦
          let at_j : find_unique t j ≡ some x =
            subst (λ k. find_unique t k ≡ some x) ((==_iff _ _).0 here) at in
          let same : x ≡ r = ground (arith, at_j, found) in
          (
            change x,
            rw (e, find-update, here, at_j) refl,
            inr (subst (λ y. Move y (change x)) same move),
          )
      | inr other ↦ (r, rw (e, find-update, other) found, inl refl)
    ]
    row_moves {Move} {t} (moved_twice id x first second at move e) j r found =
        elim (Bool-cases (id == j)) [
          | inl here ↦
              let at_j : find_unique t j ≡ some x =
                subst (λ k. find_unique t k ≡ some x) ((==_iff _ _).0 here) at in
              let same : x ≡ r = ground (arith, at_j, found) in
              (
                second (first x),
                rw (e, find-update, here, find-update, here, at_j) refl,
                inr (subst (λ y. Move y (second (first x))) same move),
              )
          | inr other ↦ (r, rw (e, find-update, other, find-update, other) found, inl refl)
        ]

    -- A property of rows that the new rows have and the moves keep stays true of every row.
    pub step-EveryRow :
        {Fresh Good : R → Type 0} {Move : R → R → Type 0} {t t' : Table R}
        → ((r : R) → Fresh r → Good r)
        → ((r r' : R) → Move r r' → Good r → Good r')
        → TableStep Fresh Move t t'
        → EveryRow Good t
        → EveryRow Good t'
    step-EveryRow fresh moves (kept e) every j r found = every j r (rw e at found)
    step-EveryRow {Good} {t} fresh moves (added x f e) every j r found =
        elim (insert_origin t x r j (rw e at found)) [
          | inl (_, same) ↦ subst Good same (fresh x f)
          | inr before ↦ every j r before
        ]
    step-EveryRow {Good} {t} fresh moves (completed x change f e) every j r found =
        elim (Bool-cases (P.new_id t == j)) [
          | inl here ↦
              let now : some (change x) ≡ some r =
                rw (e, find-update, here, find-insert, here) at found in
              subst Good (ground (arith, now)) (fresh (change x) f)
          | inr other ↦ every j r (rw (e, find-update, other, find-insert, other) at found)
        ]
    step-EveryRow {Good} {t} fresh moves (moved id x change at move e) every j r found =
        elim (Bool-cases (id == j)) [
          | inl here ↦
              let at_j : find_unique t j ≡ some x =
                subst (λ k. find_unique t k ≡ some x) ((==_iff _ _).0 here) at in
              let now : some (change x) ≡ some r = rw (e, find-update, here, at_j) at found in
              subst Good (ground (arith, now)) (moves x (change x) move (every id x at))
          | inr other ↦ every j r (rw (e, find-update, other) at found)
        ]
    step-EveryRow {Good} {t} fresh moves (moved_twice id x first second at move e) every j r found =
        elim (Bool-cases (id == j)) [
          | inl here ↦
              let at_j : find_unique t j ≡ some x =
                subst (λ k. find_unique t k ≡ some x) ((==_iff _ _).0 here) at in
              let now : some (second (first x)) ≡ some r =
                rw (e, find-update, here, find-update, here, at_j) at found in
              subst Good (ground (arith, now)) (moves x (second (first x)) move (every id x at))
          | inr other ↦ every j r (rw (e, find-update, other, find-update, other) at found)
        ]

    -- The same for a call that may also take rows away.
    pub change-EveryRow :
        {Fresh Good : R → Type 0} {Move : R → R → Type 0} {t t' : Table R}
        → ((r : R) → Fresh r → Good r)
        → ((r r' : R) → Move r r' → Good r → Good r')
        → TableChange Fresh Move t t'
        → EveryRow Good t
        → EveryRow Good t'
    change-EveryRow fresh moves (stepped s) every = step-EveryRow fresh moves s every
    change-EveryRow {Good} {t} fresh moves (removed p e) every = λ j r found.
        elim (Option-cases (find_unique t j)) [
          | inl n ↦ absurd (ground (arith, found, find-delete_many t p j, e, n))
          | inr (x, f) ↦ elim (Bool-cases (p j x)) [
            | inl gone ↦ absurd (ground (arith, rw (e, find-delete_many, f, gone) at found))
            | inr there ↦
                let now : some x ≡ some r = rw (e, find-delete_many, f, there) at found in
                subst Good (ground (arith, now)) (every j x f)
          ]
        ]

    -- What every call keeps, a history keeps.
    pub History-keeps :
        {S Call : Type 0} {run : Call → S → S} {table : S → Table R} {Good : R → Type 0}
        {start s : S}
        → ((c : Call) (x : S) → EveryRow Good (table x) → EveryRow Good (table (run c x)))
        → EveryRow Good (table start)
        → History run table start s
        → EveryRow Good (table s)
    History-keeps keeps every begin = every
    History-keeps keeps every (call {s = before} h c) = keeps c before (History-keeps keeps every h)
    History-keeps keeps every (elsewhere h e) =
        λ j r found. History-keeps keeps every h j r (rw e at found)

    module _ {S : Type 0} {Call : Type 0} {run : Call → S → S} {table : S → Table R}
        {Fresh : R → Type 0} {Move : R → R → Type 0}
        (steps : (c : Call) (s : S) → TableStep Fresh Move (table s) (table (run c s))) where
      pub History-EveryRow :
          {Good : R → Type 0} {start s : S}
          → ((r : R) → Fresh r → Good r)
          → ((r r' : R) → Move r r' → Good r → Good r')
          → EveryRow Good (table start)
          → History run table start s
          → EveryRow Good (table s)
      History-EveryRow fresh moves every h =
          History-keeps (λ c x. step-EveryRow fresh moves (steps c x)) every h

      -- A reflexive relation that each move extends relates a row to what becomes of it.
      pub History-row :
          {Reaches : R → R → Type 0} {start s : S}
          → ((r : R) → Reaches r r)
          → ((a b c : R) → Reaches a b → Move b c → Reaches a c)
          → (j : ℕ) (r : R) → find_unique (table start) j ≡ some r
          → History run table start s
          → (r' : R) × (find_unique (table s) j ≡ some r') × Reaches r r'
      History-row here there j r found begin = (r, found, here r)
      History-row {Reaches} here there j r found (call {s = before} h c) =
          let (b, at_b, to_b) = History-row {Reaches = Reaches} here there j r found h in
          let (d, at_d, moves) = row_moves (steps c before) j b at_b in
          (
            d,
            at_d,
            elim moves [
              | inl same ↦ subst (λ x. Reaches r x) (sym same) to_b
              | inr move ↦ there r b d to_b move
            ],
          )
      History-row here there j r found (elsewhere h e) =
          let (b, at_b, to_b) = History-row here there j r found h in (b, rw e at_b, to_b)
