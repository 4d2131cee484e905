-- ===== src/Mailboxes/Profiles.antt =====
-- app/mailboxes/service.py: the profiles that the users register. The table is the list of its rows;
-- the callers commit.
pub mod Rows
pub mod Login
use mind_wall.Prelude.{
  ℕ, Bool, true, false, not, ◌&&◌, ◌||◌, Option, none, some, List, [], ◌∷◌, ◌++◌, map, any, select,
  find, take, length, ◌==◌, leb, is_some, if◌then◌else◌, Result, ok, err, ◌>>=◌,
}
use mind_wall.Prelude.Sorting.{sort}
use mind_wall.Wire.{Text, codes, is_empty}
use mind_wall.Wire.Splitting.{split_all}
use mind_wall.Models.Mailboxes.{
  ConnectionSecurity, MailboxStatus, active, pending, connection_error, MailboxProfile,
}
use mind_wall.Models.Session.{NewId}
use mind_wall.Imap.Auth.{has_username}

-- The fields of the form, validated.
pub record MailboxFormData : Type 0 where
  pub display_name : Text
  pub email_address : Text
  pub imap_host : Text
  pub imap_port : ℕ
  pub imap_username : Text
  pub imap_password : Text
  pub imap_security : ConnectionSecurity
  pub smtp_host : Text
  pub smtp_port : ℕ
  pub smtp_username : Text
  pub smtp_password : Text
  pub smtp_security : ConnectionSecurity

-- Fernet under the key of the configuration: `decrypt` is `none` where it raises ValueError.
pub record Encryptor : Type 0 where
  pub encrypt : Text → Text
  pub decrypt : Text → Option Text

-- What a call draws at random: `token_hex(3)`, `token_urlsafe(24)`, and bcrypt's hash with its salt.
pub record Secrets : Type 0 where
  pub token_hex : Text
  pub token_urlsafe : Text
  pub hash_password : Text → Text

pub data ProfileError : Type 0 where
  -- the ValueErrors of `create_mailbox`
  imap_password_required smtp_password_required : ProfileError
  -- IntegrityError of the unique proxy username
  username_taken : ProfileError
  -- the ValueError of `decrypt`
  decryption_failed : ProfileError

abbrev is_safe : ℕ → Bool
is_safe c = leb b'a' c && leb c b'z' || leb b'0' c && leb c b'9'

abbrev first_part : List Text → Text
first_part [] = []
first_part (t ∷ ts) = t

abbrev or_user : Text → Text
or_user t = if is_empty t then codes "user" else t

-- `generate_proxy_username`, with `str.lower` as a parameter.
unfoldable pub generate_proxy_username : (Text → Text) → Secrets → Text → Text
generate_proxy_username lower secrets email =
    let local_part = lower (first_part (split_all b'@' email)) in
    codes "mw_" ++ or_user (take 12 (select is_safe local_part)) ++ codes "_" ++ secrets.token_hex

abbrev pub of_owner : ℕ → ℕ → MailboxProfile → Bool
of_owner mailbox_id owner_id p = p.id == mailbox_id && p.owner_id == owner_id

-- `get_mailbox_by_id`.
unfoldable pub get_mailbox_by_id : ℕ → ℕ → List MailboxProfile → Option MailboxProfile
get_mailbox_by_id mailbox_id owner_id profiles = find (of_owner mailbox_id owner_id) profiles

abbrev pub oldest_first : MailboxProfile → MailboxProfile → Bool
oldest_first a b = leb a.created_at b.created_at

-- `list_mailboxes_for_user`.
unfoldable pub list_mailboxes_for_user : ℕ → List MailboxProfile → List MailboxProfile
list_mailboxes_for_user owner_id profiles =
    sort oldest_first (select (λ (p : MailboxProfile). p.owner_id == owner_id) profiles)

-- The row of a new profile.
unfoldable pub new_profile :
    (Text → Text) → Encryptor → Secrets → ℕ → ℕ → ℕ → MailboxFormData → MailboxProfile
unfolding generate_proxy_username
new_profile lower enc secrets id now owner_id form = record {
  id = id;
  owner_id = owner_id;
  display_name = form.display_name;
  email_address = form.email_address;
  imap_host = form.imap_host;
  imap_port = form.imap_port;
  imap_username = form.imap_username;
  imap_password_enc = enc.encrypt form.imap_password;
  imap_security = form.imap_security;
  smtp_host = form.smtp_host;
  smtp_port = form.smtp_port;
  smtp_username = form.smtp_username;
  smtp_password_enc = enc.encrypt form.smtp_password;
  smtp_security = form.smtp_security;
  status = pending;
  proxy_username = some (generate_proxy_username lower secrets form.email_address);
  proxy_password_hash = some (secrets.hash_password secrets.token_urlsafe);
  last_connection_check_at = none;
  last_connection_error = none;
  created_at = now;
}

-- The flush of a new row, which the unique proxy username may refuse.
abbrev add_profile :
    MailboxProfile
    → Text
    → Text
    → List MailboxProfile
    → Result ProfileError (MailboxProfile × Text) × List MailboxProfile
add_profile p name word profiles =
    if any (has_username name) profiles
    then (err username_taken, profiles)
    else (ok (p, word), profiles ++ p ∷ [])

-- `create_mailbox`: the profile with the plain proxy password, and the table.
unfoldable pub create_mailbox :
    (Text → Text)
    → Encryptor
    → Secrets
    → NewId
    → ℕ
    → ℕ
    → MailboxFormData
    → List MailboxProfile
    → Result ProfileError (MailboxProfile × Text) × List MailboxProfile
unfolding new_profile generate_proxy_username
create_mailbox lower enc secrets new_id now owner_id form profiles =
    let id = new_id (map (λ (p : MailboxProfile). p.id) profiles) in
    if is_empty form.imap_password
    then (err imap_password_required, profiles)
    else if is_empty form.smtp_password
    then (err smtp_password_required, profiles)
    else add_profile (new_profile lower enc secrets id now owner_id form)
        (generate_proxy_username lower secrets form.email_address) secrets.token_urlsafe profiles

-- An object of the session that is written to is the row with its id.
abbrev pub replace_profile : MailboxProfile → List MailboxProfile → List MailboxProfile
replace_profile p [] = []
replace_profile p (x ∷ xs) =
    let rest = replace_profile p xs in if x.id == p.id then p ∷ rest else x ∷ rest

abbrev pub encrypted_or : Encryptor → Text → Text → Text
encrypted_or enc word old = if is_empty word then old else enc.encrypt word

-- The object after `update_mailbox`.
unfoldable pub updated_profile : Encryptor → MailboxFormData → MailboxProfile → MailboxProfile
updated_profile enc form p = record p {
  display_name = form.display_name;
  email_address = form.email_address;
  imap_host = form.imap_host;
  imap_port = form.imap_port;
  imap_username = form.imap_username;
  imap_password_enc = encrypted_or enc form.imap_password p.imap_password_enc;
  imap_security = form.imap_security;
  smtp_host = form.smtp_host;
  smtp_port = form.smtp_port;
  smtp_username = form.smtp_username;
  smtp_password_enc = encrypted_or enc form.smtp_password p.smtp_password_enc;
  smtp_security = form.smtp_security;
}

-- `update_mailbox`.
unfoldable pub update_mailbox :
    Encryptor
    → MailboxFormData
    → MailboxProfile
    → List MailboxProfile
    → MailboxProfile × List MailboxProfile
unfolding updated_profile
update_mailbox enc form p profiles =
    let p' = updated_profile enc form p in (p', replace_profile p' profiles)

abbrev pub with_password : Secrets → MailboxProfile → MailboxProfile
with_password secrets p = record p {
  proxy_password_hash = some (secrets.hash_password secrets.token_urlsafe);
}

-- `reset_proxy_password`: the plain password, and the table.
unfoldable pub reset_proxy_password :
    Secrets → MailboxProfile → List MailboxProfile → Text × List MailboxProfile
reset_proxy_password secrets p profiles =
    (secrets.token_urlsafe, replace_profile (with_password secrets p) profiles)

-- `delete_mailbox`.
unfoldable pub delete_mailbox : MailboxProfile → List MailboxProfile → List MailboxProfile
delete_mailbox p profiles = select (λ (x : MailboxProfile). not (x.id == p.id)) profiles

-- `count_mailboxes` and `list_all_mailboxes`.
unfoldable pub count_mailboxes : List MailboxProfile → ℕ
count_mailboxes profiles = length profiles

unfoldable pub list_all_mailboxes : List MailboxProfile → List MailboxProfile
list_all_mailboxes profiles = sort oldest_first profiles
