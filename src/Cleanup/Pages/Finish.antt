-- ===== src/Cleanup/Pages/Finish.antt =====
-- The loop over pages comes to an end: internal/cleanup/service.go, cleanupAllChats.
use qwen2api_go.Prelude.{
  ℕ, zero, suc, ◌+◌, ◌≤◌, ◌≡◌, ◌≢◌, refl, ◌||◌, Option, none, some, List, [], ◌∷◌, ltb, arith,
  Bool-cases, if-cases, inl, inr,
}
use qwen2api_go.Text.{Text, Unicode, is_blank}
use qwen2api_go.Storage.{Account, Result, ok, err, is_guest}
use qwen2api_go.Cleanup.Pages.{
  Chat, Upstream, Progress, unless_done, and_then, clean_page, clean_pages,
  cleanup_account_all_chats, cleanup_all_chats,
}

-- The pages after the `last` one are empty or cannot be read, whatever is deleted meanwhile.
abbrev pub HasLastPage : {U : Type 0} → Upstream U → ℕ → Type 0
HasLastPage {U} up last =
    (token : Text) (page : ℕ) (u : U)
    → last + 1 ≤ page
    → (chat : Chat) (chats : List Chat) → up.list_chats token page u ≢ ok (chat ∷ chats)

abbrev Finishes : {A : Type 0} → Option A → Type 0
Finishes {A} o = (a : A) × (o ≡ some a)

unless_done-Finishes :
    {U : Type 0} (s : Progress U) (go_on : List Chat → Option (Progress U)) (r : Result (List Chat))
    → ((chat : Chat) (chats : List Chat) → r ≡ ok (chat ∷ chats) → Finishes (go_on (chat ∷ chats)))
    → Finishes (unless_done s go_on r)
unless_done-Finishes s go_on (err e) h = (s, refl)
unless_done-Finishes s go_on (ok []) h = (s, refl)
unless_done-Finishes s go_on (ok (chat ∷ chats)) h = h chat chats refl

and_then-Finishes :
    {U : Type 0} (o : Option (Progress U)) (go_on : U → Option U)
    → Finishes o
    → ((u : U) → Finishes (go_on u))
    → Finishes (and_then o go_on)
and_then-Finishes none go_on (s, e) h = cc
and_then-Finishes (some s) go_on f h = h s.0

module _ {U : Type 0} (up : Upstream U) (last : ℕ) (bounded : HasLastPage up last) where
  clean_pages-Finishes :
      (token : Text) (cutoff fuel page : ℕ) (s : Progress U)
      → last + 2 ≤ page + fuel
      → 1 ≤ fuel
      → Finishes (clean_pages up token cutoff fuel page s)
  unfolding clean_pages
  clean_pages-Finishes token cutoff zero page s enough some_left = absurd (omega (arith, some_left))
  clean_pages-Finishes token cutoff (suc fuel) page (u, deleted, failed) enough some_left =
      unless_done-Finishes (u, deleted, failed)
        (λ chats.
          clean_pages up token cutoff fuel (page + 1)
            (clean_page up token cutoff chats u deleted failed))
        (up.list_chats token page u)
        (λ chat chats h. elim (Bool-cases (ltb last page)) [
          | inl past ↦ absurd (bounded token page u (ground (arith, past)) chat chats h)
          | inr within ↦
              clean_pages-Finishes token cutoff fuel (page + 1)
                (clean_page up token cutoff (chat ∷ chats) u deleted failed) (omega (arith, enough))
                (ground (arith, within, enough))
        ])

  -- A cleanup of all chats comes to an end, if the upstream has no chats behind some page, with one
  -- round more than there are pages for each account.
  pub cleanup_all_chats-Finishes :
      ⦃u : Unicode⦄ (now : ℕ) (accounts : List Account) (v : U)
      → (w : U) × (cleanup_all_chats up (last + 1) now accounts v ≡ some w)
  unfolding cleanup_all_chats cleanup_account_all_chats
  cleanup_all_chats-Finishes now [] v = (v, refl)
  cleanup_all_chats-Finishes now (a ∷ accounts) v =
      and_then-Finishes _ (cleanup_all_chats up (last + 1) now accounts)
        (if-cases Finishes (is_guest a || is_blank a.token) _ _ (λ _. ((v, 0, 0), refl))
          (λ _. clean_pages-Finishes a.token _ (last + 1) 1 (v, 0, 0) (omega arith) (omega arith)))
        (cleanup_all_chats-Finishes now accounts)
