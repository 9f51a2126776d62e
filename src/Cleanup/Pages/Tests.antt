-- ===== src/Cleanup/Pages/Tests.antt =====
-- The loop over pages with an upstream of one page, and with one whose pages move up.
use qwen2api_go.Prelude.{
  ◌+◌, ◌-◌, ◌*◌, ◌≡◌, refl, arith, not, none, some, List, [], ◌∷◌, eqb, keep, take, drop,
  if◌then◌else◌,
}
use qwen2api_go.Text.{Text, codes, text_beq}
use qwen2api_go.Storage.{ok}
use qwen2api_go.Fixtures.{ascii_unicode, ada, bob}
use qwen2api_go.Cleanup.Pages.{
  Chat, Upstream, clean_page, clean_pages, cleanup_account_all_chats, cleanup_all_chats,
}
use qwen2api_go.Cleanup.Pages.Finish.{HasLastPage, cleanup_all_chats-Finishes}

abbrev old : Text → Chat
old id = record { chat_id = id; updated_at = 0 }

abbrev without : Text → List Chat → List Chat
without id = keep (λ chat. not (text_beq chat.chat_id id))

abbrev one_page : Upstream (List Chat)
one_page = record {
  list_chats = λ token page chats. ok (if eqb page 1 then chats else []);
  delete_chat = λ token id chats. (without id chats, none);
}

one_page-HasLastPage : HasLastPage one_page 1
one_page-HasLastPage token page u late chat chats e = ground arith

cleanup_all_chats-Finishes_example :
    (w : List Chat) × (cleanup_all_chats one_page
        (1 + 1)
        100000
        (ada ∷ bob ∷ [])
        (old (codes "c") ∷ [])
      ≡ some w)
cleanup_all_chats-Finishes_example =
    cleanup_all_chats-Finishes one_page 1 one_page-HasLastPage 100000 (ada ∷ bob ∷ [])
      (old (codes "c") ∷ [])

-- An upstream with pages of two chats, which moves the later chats up when some are deleted.
abbrev pages_of_two : Upstream (List Chat)
pages_of_two = record {
  list_chats = λ token page chats. ok (take 2 (drop (2 * (page - 1)) chats));
  delete_chat = λ token id chats. (without id chats, none);
}

-- Two of four old chats are skipped: they are on page 1 when page 2 is read.
two_are_skipped :
    cleanup_account_all_chats pages_of_two 4 100000 ada
      (old (codes "a") ∷ old (codes "b") ∷ old (codes "c") ∷ old (codes "d") ∷ [])
    ≡ some (old (codes "c") ∷ old (codes "d") ∷ [], 2, 0)
unfolding cleanup_account_all_chats clean_pages clean_page text_beq
two_are_skipped = refl
