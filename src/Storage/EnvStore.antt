-- ===== src/Storage/EnvStore.antt =====
-- internal/storage/accounts.go: envStore, whose accounts come from the variable ACCOUNTS.
use qwen2api_go.Prelude.{
  ◌≡◌, ◌≢◌, refl, sym, subst, ◌⊎◌, inl, inr, ◌||◌, Option, none, some, List, [], ◌∷◌, arith, All,
  if◌then◌else◌, if-cases,
}
use qwen2api_go.Prelude.Int.{pos}
use qwen2api_go.Text.{Text, codes, trim_space, split, text_beq_iff, cut, is_blank}
use qwen2api_go.Storage.{Account, AccountStore, Error, ok}

-- The account of the two parts of an entry, if both are there.
abbrev parse_parts : Option (Text × Text) → Option Account
parse_parts none = none
parse_parts (some (email, password)) =
    if is_blank email || is_blank password
    then none
    else some (record {
      email = trim_space email;
      password = trim_space password;
      token = [];
      source = [];
      expires = pos 0;
    })

-- The account of one entry `email:password`.
parse_account : Text → Option Account
parse_account item = parse_parts (cut b':' (trim_space item))

abbrev append_parsed : Option Account → List Account → List Account
append_parsed none rest = rest
append_parsed (some a) rest = a ∷ rest

parse_items : List Text → List Account
unfolding parse_account
parse_items [] = []
parse_items (item ∷ rest) = append_parsed (parse_account item) (parse_items rest)

-- newEnvStoreFromCurrentEnv, on the value of the variable
unfoldable pub parse_accounts : Text → List Account
unfolding parse_items
parse_accounts raw = if is_blank raw then [] else parse_items (split b',' (trim_space raw))

abbrev err_save : Error
err_save = codes "环境变量模式不支持保存账户数据"

abbrev err_delete : Error
err_delete = codes "环境变量模式不支持删除账户数据"

abbrev err_save_all : Error
err_save_all = codes "环境变量模式不支持批量保存账户数据"

unfoldable pub env_store : AccountStore (List Account)
env_store = record {
  load_accounts = λ accounts. (accounts, ok accounts);
  save_account = λ _ accounts. (accounts, some err_save);
  delete_account = λ _ accounts. (accounts, some err_delete);
  save_all_accounts = λ _ accounts. (accounts, some err_save_all);
}

-- An account as the variable gives it: it has an email and a password, and no token and no source.
pub record IsPlain (a : Account) : Type 0 where
  pub has_name : a.email ≢ []
  pub has_password : a.password ≢ []
  pub no_token : a.token ≡ []
  pub no_source : a.source ≡ []

abbrev PlainOrNone : Option Account → Type 0
PlainOrNone o = (o ≡ none) ⊎ ((a : Account) × (o ≡ some a) × IsPlain a)

parse_parts-cases : (parts : Option (Text × Text)) → PlainOrNone (parse_parts parts)
parse_parts-cases none = inl refl
parse_parts-cases (some (email, password)) =
    if-cases PlainOrNone (is_blank email || is_blank password) _ _ (λ _. inl refl)
      (λ full. inr (
        _,
        refl,
        record {
          has_name = λ e. ground (arith, full, (text_beq_iff (trim_space email) []).1 e);
          has_password = λ e. ground (arith, full, (text_beq_iff (trim_space password) []).1 e);
          no_token = refl;
          no_source = refl;
        },
      ))

parse_account-cases : (item : Text) → PlainOrNone (parse_account item)
unfolding parse_account
parse_account-cases item = parse_parts-cases (cut b':' (trim_space item))

parse_items-IsPlain : (items : List Text) → All IsPlain (parse_items items)
unfolding parse_items
parse_items-IsPlain [] = tt
parse_items-IsPlain (item ∷ rest) = elim (parse_account-cases item) [
  | inl e ↦
      subst (λ o. All IsPlain (append_parsed o (parse_items rest))) (sym e)
        (parse_items-IsPlain rest)
  | inr (a, e, plain) ↦
      subst (λ o. All IsPlain (append_parsed o (parse_items rest))) (sym e)
        (plain, parse_items-IsPlain rest)
]

-- Whatever the variable ACCOUNTS holds, every account that is read from it has an email and a
-- password, and neither a token nor a source.
parse_accounts-IsPlain : (raw : Text) → All IsPlain (parse_accounts raw)
unfolding parse_accounts
parse_accounts-IsPlain raw =
    if-cases (All IsPlain) (is_blank raw) _ _ (λ _. tt)
      (λ _. parse_items-IsPlain (split b',' (trim_space raw)))
