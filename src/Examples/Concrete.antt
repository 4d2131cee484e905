-- ===== src/Examples/Concrete.antt =====
-- Concrete parameters: numbers of six decimals for the floats, ids that are above all others, and a
-- platform that is plain ASCII.
use mind_wall.Prelude.{
  ℕ, suc, ◌+◌, ◌*◌, ◌/◌, ◌^◌, ◌≤◌, ◌≢◌, none, some, List, [], ◌∷◌, All, arith, leb, ltb,
}
use mind_wall.Models.Numbers.{FloatOps, FloatLaws}
use mind_wall.Models.Session.{NewId, IsFresh}
use mind_wall.Wire.{codes, text_eq}
use mind_wall.Models.Mailboxes.{MailboxProfile, active, ssl_tls, starttls}
use mind_wall.Imap.Auth.{CheckPassword}
use mind_wall.Imap.Folders.{Platform}

abbrev sum : List ℕ → ℕ
sum [] = 0
sum (n ∷ ns) = n + sum ns

abbrev pub six_decimals : FloatOps
six_decimals = record {
  le = leb;
  lt = ltb;
  add = λ a b. a + b;
  mul = λ a b. a * b / 1000000;
  div = λ a b. a * 1000000 / b;
  sum = sum;
  decimal = λ n k. n * 1000000 / 10 ^ k;
  round = λ k a. a;
  fixed = λ k a. "0.000";
  parse = λ s. none;
}

pub six_decimals-FloatLaws : FloatLaws six_decimals
six_decimals-FloatLaws = record {
  le_trans = λ a b c h k. ground arith;
  le-lt_trans = λ a b c h k. ground arith;
  le_of_lt = λ a b h. ground arith;
  le_refl_decimal = λ n k. ground arith;
  le_of_not_lt = λ a b h k n. ground arith;
  zero_le_one = ground arith;
  add_tenth_mono = λ a b h. ground arith;
  le-add_tenth = λ a h. ground arith;
}

abbrev pub after_all : NewId
after_all ids = suc (sum ids)

below : (b : ℕ) (ids : List ℕ) → sum ids ≤ b → All (λ i. i ≢ suc b) ids
below b [] h = tt
below b (i ∷ ids) h = (ground (arith, h), below b ids (omega (arith, h)))

pub after_all-IsFresh : IsFresh after_all
after_all-IsFresh ids = below (sum ids) ids (omega arith)

abbrev pub ascii : Platform
ascii = record {
  read_raw = none;
  encode_utf8 = λ t. t;
  decode_utf8 = λ t. t;
  format_date = λ n. [];
}

-- A profile and the check of its password.
abbrev pub anna : MailboxProfile
anna = record {
  id = 7;
  owner_id = 3;
  display_name = codes "Anna";
  email_address = codes "anna@example.com";
  imap_host = codes "imap.example.com";
  imap_port = 993;
  imap_username = codes "anna";
  imap_password_enc = [];
  imap_security = ssl_tls;
  smtp_host = codes "smtp.example.com";
  smtp_port = 587;
  smtp_username = codes "anna";
  smtp_password_enc = [];
  smtp_security = starttls;
  status = active;
  proxy_username = some (codes "mw_anna");
  proxy_password_hash = some (codes "secret");
  last_connection_check_at = none;
  last_connection_error = none;
  created_at = 1;
}

abbrev pub same_text : CheckPassword
same_text word hash = some (text_eq word hash)
