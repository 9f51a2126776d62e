-- ===== src/Fixtures.antt =====
-- What the tests share: case tables for ASCII alone, and accounts.
use qwen2api_go.Prelude.{[]}
use qwen2api_go.Prelude.Int.{pos}
use qwen2api_go.Text.{Unicode, codes}
use qwen2api_go.Storage.{Account}

instance abbrev pub ascii_unicode : Unicode
ascii_unicode = record { fold_table = λ c. c; lower_table = λ c. c }

abbrev pub ada : Account
ada = record {
  email = codes "a@x";
  password = codes "p";
  token = codes "t";
  source = [];
  expires = pos 9;
}

abbrev pub bob : Account
bob = record {
  email = codes "b@x";
  password = codes "q";
  token = codes "u";
  source = [];
  expires = pos 9;
}
