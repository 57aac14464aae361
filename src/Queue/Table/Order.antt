-- ===== src/Queue/Table/Order.antt =====
-- The row that `ORDER BY id LIMIT 1` returns.
use sport_crawl.Prelude.{
  eq_of_some, ℕ, ◌≤◌, Bool, true, some, none, [], ◌∷◌, ◌≡◌, refl, sym, ap, arith, All, select,
  head?, inl, inr, Bool-cases,
}
use mathlib.Core.Path.{subst}
use mathlib.Core.List.{Memᴰ}
use sport_crawl.Queue.Table.{ScrapeQueue, Table, insert_by_id, order_by_id, first_row}

module _ (P : ScrapeQueue → Type 0) where
  All-insert_by_id : (x : ScrapeQueue) (t : Table) → P x → All P t → All P (insert_by_id x t)
  unfolding insert_by_id
  All-insert_by_id x [] p h = (p, h)
  All-insert_by_id x (r ∷ rest) p h = ground (arith, All-insert_by_id x rest p h.1)

  All-of_insert_by_id : (x : ScrapeQueue) (t : Table) → All P (insert_by_id x t) → P x × All P t
  unfolding insert_by_id
  All-of_insert_by_id x [] h = h
  All-of_insert_by_id x (r ∷ rest) h = ground (arith, All-of_insert_by_id x rest)

  pub All-order_by_id : (t : Table) → All P t → All P (order_by_id t)
  unfolding order_by_id
  All-order_by_id [] h = h
  All-order_by_id (r ∷ rest) h =
      All-insert_by_id r (order_by_id rest) h.0 (All-order_by_id rest h.1)

  All-of_order_by_id : (t : Table) → All P (order_by_id t) → All P t
  unfolding order_by_id
  All-of_order_by_id [] h = h
  All-of_order_by_id (r ∷ rest) h =
      let both = All-of_insert_by_id r (order_by_id rest) h in
      (both.0, All-of_order_by_id rest both.1)

  All-select : (test : ScrapeQueue → Bool) (t : Table) → All P t → All P (select test t)
  All-select test [] h = h
  All-select test (r ∷ rest) h = ground (arith, All-select test rest h.1)

  All-of_select :
      (test : ScrapeQueue → Bool) (t : Table)
      → All P (select test t)
      → All (λ r. test r ≡ true → P r) t
  All-of_select test [] h = h
  All-of_select test (r ∷ rest) h = (λ e. ground arith, All-of_select test rest (ground arith))

  All-of_head? : (t : Table) (r : ScrapeQueue) → All P t → head? t ≡ some r → P r
  All-of_head? [] r h e = cc
  All-of_head? (q ∷ rest) r h e = subst P (eq_of_some e) h.0

All-select-test : (test : ScrapeQueue → Bool) (t : Table) → All (λ q. test q ≡ true) (select test t)
All-select-test test [] = tt
All-select-test test (r ∷ rest) = ground (arith, All-select-test test rest)

no_head : (t : Table) → head? t ≡ none → All (λ q. ⊥) t
no_head [] e = tt
no_head (q ∷ rest) e = cc

-- The rows of a table stand in the order of their ids.
abbrev IsSorted : Table → Type 0
IsSorted [] = Unit
IsSorted (r ∷ rest) = All (λ q. r.id ≤ q.id) rest × IsSorted rest

AtLeast-mono : (a b : ℕ) (t : Table) → a ≤ b → All (λ q. b ≤ q.id) t → All (λ q. a ≤ q.id) t
AtLeast-mono a b [] le h = h
AtLeast-mono a b (r ∷ rest) le h = (omega arith, AtLeast-mono a b rest le h.1)

insert_by_id-IsSorted : (x : ScrapeQueue) (t : Table) → IsSorted t → IsSorted (insert_by_id x t)
unfolding insert_by_id
insert_by_id-IsSorted x [] h = (tt, tt)
insert_by_id-IsSorted x (r ∷ rest) h = ground (
  arith,
  insert_by_id-IsSorted x rest h.1,
  AtLeast-mono x.id r.id rest,
  All-insert_by_id (λ q. r.id ≤ q.id) x rest,
)

order_by_id-IsSorted : (t : Table) → IsSorted (order_by_id t)
unfolding order_by_id
order_by_id-IsSorted [] = tt
order_by_id-IsSorted (r ∷ rest) =
    insert_by_id-IsSorted r (order_by_id rest) (order_by_id-IsSorted rest)

IsSorted-head? :
    (t : Table) (r : ScrapeQueue) → IsSorted t → head? t ≡ some r → All (λ q. r.id ≤ q.id) t
IsSorted-head? [] r s e = tt
IsSorted-head? (q ∷ rest) r s e =
    let same = eq_of_some e in
    (
      omega (arith, ap (λ (x : ScrapeQueue). x.id) same),
      subst (λ x. All (λ y. x.id ≤ y.id) rest) same s.0,
    )

Mem-weaken : (q : ScrapeQueue) (t u : Table) → All (λ x. Memᴰ x t) u → All (λ x. Memᴰ x (q ∷ t)) u
Mem-weaken q t [] h = tt
Mem-weaken q t (r ∷ rest) h = (Memᴰ.tail h.0, Mem-weaken q t rest h.1)

All-Mem : (t : Table) → All (λ x. Memᴰ x t) t
All-Mem [] = tt
All-Mem (r ∷ rest) = (Memᴰ.head refl, Mem-weaken r rest rest (All-Mem rest))

module _ (test : ScrapeQueue → Bool) (t : Table) where
  -- The row that ORDER BY id LIMIT 1 returns passes the WHERE clause, stands in the table, and no
  -- row that passes has a smaller id.
  pub first_row-some :
      (r : ScrapeQueue)
      → first_row test t ≡ some r
      → (test r ≡ true) × Memᴰ r t × All (λ q. test q ≡ true → r.id ≤ q.id) t
  first_row-some r e =
      let e' : head? (order_by_id (select test t)) ≡ some r = ground arith in
      let passes = All-select-test test t in
      let u = select test t in
      (
        All-of_head? (λ q. test q ≡ true) (order_by_id u) r
            (All-order_by_id (λ q. test q ≡ true) u passes) e',
        All-of_head? (λ q. Memᴰ q t) (order_by_id u) r
            (All-order_by_id (λ q. Memᴰ q t) u (All-select (λ q. Memᴰ q t) test t (All-Mem t))) e',
        All-of_select (λ q. r.id ≤ q.id) test t
            (All-of_order_by_id (λ q. r.id ≤ q.id) u
              (IsSorted-head? (order_by_id u) r (order_by_id-IsSorted u) e')),
      )

  -- No row is returned only if none passes the WHERE clause.
  pub first_row-none : first_row test t ≡ none → All (λ q. test q ≡ true → ⊥) t
  first_row-none e =
      All-of_select (λ q. ⊥) test t
        (All-of_order_by_id (λ q. ⊥) (select test t)
          (no_head (order_by_id (select test t)) (ground arith)))

pub head?-select :
    (test : ScrapeQueue → Bool) (t : Table) (q : ScrapeQueue)
    → head? (select test t) ≡ some q
    → Memᴰ q t × (test q ≡ true)
head?-select test [] q h = absurd (cc)
head?-select test (r ∷ rest) q h = elim (Bool-cases (test r)) [
  | inl passes ↦
      let same : r ≡ q = eq_of_some (rw passes at h) in
      (Memᴰ.head (sym same), subst (λ x. test x ≡ true) same passes)
  | inr not_it ↦
      let later = head?-select test rest q (rw not_it at h) in (Memᴰ.tail later.0, later.1)
]
