-- ===== src/Crawl/Candidates.antt =====
-- scripts/scrape_player_info.py, _startup_drain: the candidates of a batch stand in the URL table.
use mathlib.Core.List.{Memᴰ}
use sport_crawl.Prelude.{
  ℕ, zero, suc, Bool, [], ◌∷◌, refl, arith, All, All-append, select, take, Bool-cases, inl, inr,
}
use sport_crawl.Queue.Table.{Table, done, is_status}
use sport_crawl.Queue.UrlTable.{BackendUrlRow, UrlTable}
use sport_crawl.Crawl.Startup.{
  is_link, done_links, left_join, join_all, precedes, insert_url, order_urls, is_profile,
  due_candidates,
}

module _ (P : BackendUrlRow → Type 0) where
  All-take : (n : ℕ) (urls : UrlTable) → All P urls → All P (take n urls)
  All-take zero urls h = tt
  All-take (suc n) [] h = tt
  All-take (suc n) (b ∷ rest) h = (h.0, All-take n rest h.1)

  All-select :
      (test : BackendUrlRow → Bool) (urls : UrlTable) → All P urls → All P (select test urls)
  All-select test [] h = tt
  All-select test (b ∷ rest) h = ground (arith, All-select test rest h.1)

  All-insert_url :
      (x : BackendUrlRow) (urls : UrlTable) → P x → All P urls → All P (insert_url x urls)
  All-insert_url x [] p h = (p, tt)
  All-insert_url x (r ∷ rest) p h = elim (Bool-cases (precedes x r)) [
    | inl first ↦ rw first (p, h)
    | inr later ↦ rw later (h.0, All-insert_url x rest p h.1)
  ]

  All-order_urls : (urls : UrlTable) → All P urls → All P (order_urls urls)
  All-order_urls [] h = tt
  All-order_urls (r ∷ rest) h = All-insert_url r (order_urls rest) h.0 (All-order_urls rest h.1)

  All-done_links : (b : BackendUrlRow) (links : Table) → P b → All P (done_links b links)
  All-done_links b [] p = tt
  All-done_links b (r ∷ rest) p = elim (Bool-cases (is_status r.status done)) [
    | inl finished ↦ rw finished (p, All-done_links b rest p)
    | inr other ↦ rw other (All-done_links b rest p)
  ]

  All-left_join : (b : BackendUrlRow) (links : Table) → P b → All P (left_join b links)
  All-left_join b [] p = (p, tt)
  All-left_join b (r ∷ rest) p = All-done_links b (r ∷ rest) p

  All-join_all : (urls : UrlTable) (rows : Table) → All P urls → All P (join_all urls rows)
  All-join_all [] rows h = tt
  All-join_all (b ∷ rest) rows h =
      All-append P (left_join b (select (is_link b) rows)) (join_all rest rows)
        (All-left_join b (select (is_link b) rows) h.0) (All-join_all rest rows h.1)

  pub All-due_candidates :
      (now batch_size : ℕ) (urls : UrlTable) (rows : Table)
      → All P urls
      → All P (due_candidates now batch_size urls rows)
  unfolding due_candidates
  All-due_candidates now batch_size urls rows h =
      let due = select (is_profile now) urls in
      All-take batch_size (order_urls (join_all due rows)) (
        All-order_urls (join_all due rows)
          (All-join_all due rows (All-select (is_profile now) urls h)))

Mem-weaken :
    (c : BackendUrlRow) (urls all : UrlTable)
    → All (λ b. Memᴰ b urls) all
    → All (λ b. Memᴰ b (c ∷ urls)) all
Mem-weaken c urls [] h = tt
Mem-weaken c urls (b ∷ rest) h = (Memᴰ.tail h.0, Mem-weaken c urls rest h.1)

All-Mem : (urls : UrlTable) → All (λ b. Memᴰ b urls) urls
All-Mem [] = tt
All-Mem (b ∷ rest) = (Memᴰ.head refl, Mem-weaken b rest rest (All-Mem rest))

pub due_candidates-Mem :
    (now batch_size : ℕ) (urls : UrlTable) (rows : Table)
    → All (λ b. Memᴰ b urls) (due_candidates now batch_size urls rows)
due_candidates-Mem now batch_size urls rows =
    All-due_candidates (λ b. Memᴰ b urls) now batch_size urls rows (All-Mem urls)
