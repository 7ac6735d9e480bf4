-- ===== src/Review/Counting.antt =====
-- The listings and their counts: `list_*`, `count_*` and `summarize` of
-- agent/persistence/inmemory_repository.py.
use cfr_compliance_mcp.Prelude.{
  ℕ, zero, suc, ◌+◌, ◌≤◌, min, String, ◌≡◌, refl, ◌∙◌, ap, Bool, Option, List, [], ◌∷◌, ◌++◌, arith,
  length, take, drop, map, keep, length-map, length-take, insert_sorted, sort_by, text_le,
  Bool-cases, inl, inr, sym, subst,
}
use mathlib.Core.List.{Perm}
use mathlib.Core.List.Perm
use native.Mathlib.Nat.{zero-add, suc-add}
use cfr_compliance_mcp.Review.Repository.{Repository}
use cfr_compliance_mcp.Review.Queries.{
  page, review_matches, review_item, analysis_matches, summary, list_review_queue,
  count_review_queue, list_analyses, count_analyses,
}

module _ {ℓ} {A : Type ℓ} where
  length-insert_sorted :
      (le : A → A → Bool) (x : A) (ys : List A) → length (insert_sorted le x ys) ≡ suc (length ys)
  unfolding insert_sorted
  length-insert_sorted le x [] = refl
  length-insert_sorted le x (y ∷ ys) = ground (arith, length-insert_sorted le x ys)

  pub length-sort_by : (le : A → A → Bool) (xs : List A) → length (sort_by le xs) ≡ length xs
  unfolding sort_by
  length-sort_by le [] = refl
  length-sort_by le (x ∷ xs) =
      length-insert_sorted le x (sort_by le xs) ∙ ap suc (length-sort_by le xs)

  insert_sorted-perm :
      (le : A → A → Bool) (x : A) (ys : List A) → Perm (insert_sorted le x ys) (x ∷ ys)
  unfolding insert_sorted
  insert_sorted-perm le x [] = Perm.refl (x ∷ [])
  insert_sorted-perm le x (y ∷ ys) = elim (Bool-cases (le x y)) [
    | inl first ↦ rw first (Perm.refl (x ∷ y ∷ ys))
    | inr later ↦
        rw later (Perm.trans (Perm.cons y (insert_sorted-perm le x ys)) (Perm.swap x y ys))
  ]

  sort_by-perm : (le : A → A → Bool) (xs : List A) → Perm (sort_by le xs) xs
  unfolding sort_by
  sort_by-perm le [] = Perm.refl []
  sort_by-perm le (x ∷ xs) =
      Perm.trans (insert_sorted-perm le x (sort_by le xs)) (Perm.cons x (sort_by-perm le xs))

  drop-drop : (m n : ℕ) (xs : List A) → drop n (drop m xs) ≡ drop (m + n) xs
  drop-drop zero n xs = rw zero-add
  drop-drop (suc m) zero [] = rw suc-add
  drop-drop (suc m) (suc n) [] = rw suc-add
  drop-drop (suc m) n (x ∷ xs) = rw suc-add (drop-drop m n xs)

  take-append-take : (m n : ℕ) (xs : List A) → take m xs ++ take n (drop m xs) ≡ take (m + n) xs
  take-append-take zero n xs = rw zero-add
  take-append-take (suc m) zero [] = rw suc-add
  take-append-take (suc m) (suc n) [] = rw suc-add
  take-append-take (suc m) n (x ∷ xs) = rw suc-add (ap (◌∷◌ x) (take-append-take m n xs))

  page-append : (l m o : ℕ) (xs : List A) → page l o xs ++ page m (o + l) xs ≡ page (l + m) o xs
  unfolding page
  page-append l m o xs = rw (← drop-drop o l xs) (take-append-take l m (drop o xs))

  take-all : (n : ℕ) (xs : List A) → length xs ≤ n → take n xs ≡ xs
  take-all zero [] h = refl
  take-all zero (x ∷ xs) h = absurd (omega arith)
  take-all (suc n) [] h = refl
  take-all (suc n) (x ∷ xs) h = ap (◌∷◌ x) (take-all n xs (omega arith))

-- The number of reviews in a state, or of all reviews: what the count is documented to be.
abbrev pub matching_reviews : Option String → Repository → ℕ
matching_reviews state repo = length (keep (review_matches state) repo.reviews)

abbrev pub matching_analyses : Option String → Repository → ℕ
matching_analyses status repo =
    length (keep (analysis_matches status) (map (λ e. summary e.1) repo.analyses))

-- The count of the review queue is the number of matching reviews, but never more than 50.
pub count_review_queue-capped :
    (state : Option String) (repo : Repository)
    → count_review_queue state repo ≡ min 50 (matching_reviews state repo)
unfolding count_review_queue list_review_queue page
count_review_queue-capped state repo =
    let found = keep (review_matches state) repo.reviews in
    length-take 50
      (sort_by (λ a b. text_le a.analysis_id b.analysis_id) (map (review_item repo) found))
    ∙ ap (min 50) (
        length-sort_by (λ a b. text_le a.analysis_id b.analysis_id) (map (review_item repo) found)
        ∙ length-map (review_item repo) found)

-- The count of the analyses is the number of matching analyses, but never more than 50.
pub count_analyses-capped :
    (status : Option String) (repo : Repository)
    → count_analyses status repo ≡ min 50 (matching_analyses status repo)
unfolding count_analyses list_analyses page
count_analyses-capped status repo =
    let found = keep (analysis_matches status) (map (λ e. summary e.1) repo.analyses) in
    length-take 50 (sort_by (λ s t. text_le t.generated_at s.generated_at) found)
    ∙ ap (min 50) (length-sort_by (λ s t. text_le t.generated_at s.generated_at) found)

-- The pages of the review queue tile it: a page and the page behind it are the page of both lengths,
-- and a page from the start with room for all of them holds each matching review once, in some
-- order.
pub list_review_queue-pages :
    (state : Option String) (l m o n : ℕ) (repo : Repository)
    → matching_reviews state repo ≤ n
    → (list_review_queue state l o repo ++ list_review_queue state m (o + l) repo
        ≡ list_review_queue state (l + m) o repo)
      × Perm
          (list_review_queue state n 0 repo)
          (map (review_item repo) (keep (review_matches state) repo.reviews))
unfolding list_review_queue page
list_review_queue-pages state l m o n repo h =
    let items = map (review_item repo) (keep (review_matches state) repo.reviews) in
    let sorted = sort_by (λ a b. text_le a.analysis_id b.analysis_id) items in
    let fits : length sorted ≤ n = omega (
      arith,
      length-sort_by (λ a b. text_le a.analysis_id b.analysis_id) items,
      length-map (review_item repo) (keep (review_matches state) repo.reviews),
    ) in
    (
      page-append l m o sorted,
      subst (λ xs. Perm xs items) (sym (take-all n sorted fits))
          (sort_by-perm (λ a b. text_le a.analysis_id b.analysis_id) items),
    )
