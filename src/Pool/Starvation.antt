-- ===== src/Pool/Starvation.antt =====
-- Who is never chosen: internal/account/service.go, GetAccountSession over many requests.
use qwen2api_go.Prelude.{
  ℕ, ◌<◌, ◌≡◌, ◌≢◌, refl, sym, ap, subst, ◌∙◌, true, List, [], ◌∷◌, ◌++◌, all, All, In,
  In-append_last, any_of-In, all-In, arith,
}
use qwen2api_go.Text.{Text, Unicode, text_eq, text_beq_iff}
use qwen2api_go.Dict.{Dict, get_or, get_or-put}
use qwen2api_go.Storage.{Account, Result, ok}
use qwen2api_go.Pool.{
  Pool, has_access, admits, forgive, available_from, available_locked, touch, choose,
  choose_or_fall_back, get_account_session,
}
use qwen2api_go.Pool.Selection.{NeverUsed, select_last, select-nil}
use qwen2api_go.Pool.Sessions.{session_opens}

abbrev pub HasFewFailures : Dict Text ℕ → Account → Type 0
HasFewFailures failures a = get_or 0 a.email failures < 3

module _ ⦃u : Unicode⦄ where
  -- The answers to a series of requests; each has the two times that the code reads.
  pub serve_all : List (ℕ × ℕ) → Pool → List (Result Account)
  serve_all [] p = []
  serve_all ((now, stamp) ∷ times) p =
      let (q, answer) = get_account_session now stamp p in answer ∷ serve_all times q

  module _ (now : ℕ) (last_used failures : Dict Text ℕ) where
    admits_fresh :
        (a : Account) → HasFewFailures failures a → admits now last_used failures a ≡ has_access a
    unfolding admits
    admits_fresh a few = ground arith

    forgive_fresh :
        (a : Account) → HasFewFailures failures a → forgive now last_used a failures ≡ failures
    unfolding forgive
    forgive_fresh a few = ground arith

    available_fresh :
        (xs : List Account)
        → All (HasFewFailures failures) xs
        → all has_access xs ≡ true
        → available_from now last_used xs failures ≡ (xs, failures)
    unfolding available_from
    available_fresh [] few access = refl
    available_fresh (a ∷ xs) few access =
        rw (forgive_fresh a few.0, available_fresh xs few.1 (ground arith), admits_fresh a few.0)
          (ground arith)

  -- The accounts `xs` have never been used, and stand before `z`; all have a token or are guests,
  -- and none has failed three times.
  pub record IsLopsided (xs : List Account) (z : Account) (p : Pool) : Type 0 where
    pub ready : p.initialized ≡ true
    pub listed : p.accounts ≡ xs ++ z ∷ []
    pub access : all has_access p.accounts ≡ true
    pub few : All (HasFewFailures p.failures) p.accounts
    pub unused : All (NeverUsed p.last_used) xs
    pub apart : All (λ a. a.email ≢ z.email) xs

  choose_last :
      (stamp : ℕ) (xs : List Account) (z : Account) (p : Pool)
      → All (NeverUsed p.last_used) xs
      → choose_or_fall_back stamp (xs ++ z ∷ [], p) ≡ (touch z.email stamp p, ok z)
  unfolding choose
  choose_last stamp [] z p unused = rw (select-nil p.last_used z (get_or 0 z.email p.last_used))
  choose_last stamp (x ∷ xs) z p unused = rw (unused.0, select_last p.last_used x xs z unused.1)

  NeverUsed-touch :
      (email : Text) (stamp : ℕ) (p : Pool) (xs : List Account)
      → All (λ a. a.email ≢ email) xs
      → All (NeverUsed p.last_used) xs
      → All (NeverUsed (touch email stamp p).last_used) xs
  unfolding touch
  NeverUsed-touch email stamp p [] apart unused = tt
  NeverUsed-touch email stamp p (a ∷ xs) apart unused = (
    ground
        (arith, get_or-put 0 email a.email stamp p.last_used, text_beq_iff email a.email, apart.0),
    NeverUsed-touch email stamp p xs apart.1 unused.1,
  )

  lopsided_step :
      (now stamp : ℕ) (xs : List Account) (z : Account) (p : Pool)
      → IsLopsided xs z p
      → get_account_session now stamp p ≡ (touch z.email stamp p, ok z)
  unfolding available_locked
  lopsided_step now stamp xs z p v =
      let here : In z p.accounts = subst (In z) (sym v.listed) (In-append_last z xs) in
      session_opens now stamp p v.ready
        (any_of-In has_access z p.accounts here (all-In has_access z p.accounts v.access here))
      ∙ ap (λ r. choose_or_fall_back stamp (r.0, record p { failures = r.1 }))
          (available_fresh now p.last_used p.failures p.accounts v.few v.access)
      ∙ ap (λ ys. choose_or_fall_back stamp (ys, p)) v.listed
      ∙ choose_last stamp xs z p v.unused

  touch-IsLopsided :
      (stamp : ℕ) (xs : List Account) (z : Account) (p : Pool)
      → IsLopsided xs z p
      → IsLopsided xs z (touch z.email stamp p)
  touch-IsLopsided stamp xs z p v =
      unfold touch in
      record {
        ready = v.ready;
        listed = v.listed;
        access = v.access;
        few = v.few;
        unused = NeverUsed-touch z.email stamp p xs v.apart v.unused;
        apart = v.apart;
      }

  -- In an initialised pool all of whose accounts have a token or are guests and have failed less
  -- than three times, if the accounts before the last one have never been used and have other emails
  -- than the last one, every request of a series, however long and at whatever times, is given the
  -- last account: the others are never chosen.
  pub serve_all_last :
      (times : List (ℕ × ℕ)) (xs : List Account) (z : Account) (p : Pool)
      → IsLopsided xs z p
      → All (λ answer. answer ≡ ok z) (serve_all times p)
  unfolding serve_all
  serve_all_last [] xs z p v = tt
  serve_all_last ((now, stamp) ∷ times) xs z p v =
      subst (λ r. All (λ answer. answer ≡ ok z) (r.1 ∷ serve_all times r.0))
        (sym (lopsided_step now stamp xs z p v))
        (refl, serve_all_last times xs z (touch z.email stamp p) (touch-IsLopsided stamp xs z p v))
