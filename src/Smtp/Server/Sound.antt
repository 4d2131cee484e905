-- ===== src/Smtp/Server/Sound.antt =====
-- app/proxies/smtp/server.py: what a sound connection is, and the submissions of one.
use mind_wall.Prelude.{
  ℕ, ◌+◌, ◌≤◌, length-append, ◌≡◌, refl, sym, subst, Option, none, some, List, [], ◌∷◌, ◌++◌,
  length, All, All-append, Option-cases, Bool-cases, inl, inr, ltb, arith,
}
use mind_wall.Wire.{Text, text_eq, is_empty}
use mind_wall.Imap.Auth.{ProxySession}
use mind_wall.Smtp.Delivery.{
  SmtpDeliveryMode, OutboundMessage, mode_of, write_outbound_eml, outbound_row, deliver_outbound,
}
use mind_wall.Smtp.Lines.{Input, received, timed_out, collect_data, unstuff, after, terminator}
use mind_wall.Smtp.Commands.{
  SmtpState, greeting, ehlo, auth, mail, rcpt, data_, Conn, Server, idle_state, reset_envelope,
  Outcome, rows_of, submit,
}

-- A row is one of a submission by the session, with a recipient at least and within the limit.
abbrev pub IsSubmitted : Server → ProxySession → OutboundMessage → Type 0
IsSubmitted v s row =
    (mode : SmtpDeliveryMode) × (sender : Text) × (first : Text) × (more : List Text) × (raw : Text)
    × (id : ℕ) × (now : ℕ) × (file : Text × Text) × (mode_of v.delivery_mode ≡ some mode)
    × (length raw ≤ v.max_message_bytes)
    × (row ≡ outbound_row v.outside none mode s (sender, first ∷ more, raw) id now file)

abbrev pub IsOwnRow : Server → Option ProxySession → OutboundMessage → Type 0
IsOwnRow v none row = ⊥
IsOwnRow v (some s) row = IsSubmitted v s row

-- What each state says of the session and of the envelope.
abbrev pub IsReady : SmtpState → Option ProxySession → Option Text → List Text → Type 0
IsReady greeting none sender to = Unit
IsReady greeting (some s) sender to = ⊥
IsReady ehlo none sender to = Unit
IsReady ehlo (some s) sender to = ⊥
IsReady auth (some s) sender to = Unit
IsReady auth none sender to = ⊥
IsReady mail (some s) (some a) to = Unit
IsReady mail (some s) none to = ⊥
IsReady mail none sender to = ⊥
IsReady rcpt (some s) (some a) (t ∷ ts) = Unit
IsReady rcpt (some s) (some a) [] = ⊥
IsReady rcpt (some s) none to = ⊥
IsReady rcpt none sender to = ⊥
IsReady data_ session sender to = ⊥

abbrev pub IsSound : Server → Conn → Type 0
IsSound v c =
    IsReady c.state c.proxy_session c.envelope_from c.envelope_to
    × All (IsOwnRow v c.proxy_session) c.outbound

abbrev pub IsFine : Server → Outcome → Type 0
IsFine v none = ⊥
IsFine v (some (c, rest)) = IsSound v c

pub idle_state-IsReady :
    (session : Option ProxySession) (sender : Option Text) (to : List Text)
    → IsReady (idle_state session) session sender to
idle_state-IsReady none sender to = tt
idle_state-IsReady (some s) sender to = tt

module _ (v : Server) where
  pub reset_envelope-IsSound :
      (c : Conn) → All (IsOwnRow v c.proxy_session) c.outbound → IsSound v (reset_envelope c)
  unfolding reset_envelope
  reset_envelope-IsSound c h = (idle_state-IsReady c.proxy_session none [], h)

  after-some :
      (line : Text) (r : Option Text × List Input) {raw : Text}
      → (after line r).0 ≡ some raw
      → (more : Text) × (r.0 ≡ some more) × (raw ≡ line ++ more)
  after-some line (none, rest) e = cc
  after-some line (some d, rest) e = (d, refl, cc)

  -- What is collected is within the limit.
  pub collect_data-bounded :
      (total : ℕ) (inputs : List Input) {raw : Text}
      → total ≤ v.max_message_bytes
      → (collect_data v.max_message_bytes total inputs).0 ≡ some raw
      → total + length raw ≤ v.max_message_bytes
  unfolding collect_data
  collect_data-bounded total [] h e = cc
  collect_data-bounded total (timed_out ∷ inputs) h e = cc
  collect_data-bounded total (received raw' ∷ inputs) {raw} h e =
      elim (Bool-cases (is_empty raw')) [
        | inl t ↦ (let e' = rw (t, collect_data) at e in cc)
        | inr n ↦ elim (Bool-cases (text_eq raw' terminator)) [
          | inl t ↦
              (let e' = rw (n, t, collect_data) at e in
                let q : [] ≡ raw = cc in
                subst (λ x. total + length x ≤ v.max_message_bytes) q (omega (arith, h)))
          | inr n' ↦ elim (Bool-cases (ltb v.max_message_bytes (total + length (unstuff raw')))) [
            | inl t ↦ (let e' = rw (n, n', t, collect_data) at e in cc)
            | inr n'' ↦
                (let e' = rw (n, n', n'', collect_data) at e in
                  let (more, found, q) =
                    after-some (unstuff raw')
                      (collect_data v.max_message_bytes (total + length (unstuff raw')) inputs)
                      e' in
                  let fits : total + length (unstuff raw') ≤ v.max_message_bytes =
                    ground (arith, n'') in
                  let rest =
                    collect_data-bounded (total + length (unstuff raw')) inputs fits found in
                  subst (λ x. total + length x ≤ v.max_message_bytes) (sym q)
                    (omega (arith, rest, length-append (unstuff raw') more)))
          ]
        ]
      ]

  -- A delivery adds a row of the submission, or none.
  deliver_outbound-rows :
      (s : ProxySession) (sender first : Text) (more : List Text) (raw : Text) (now : ℕ)
      (rows : List OutboundMessage)
      → length raw ≤ v.max_message_bytes
      → All (IsSubmitted v s) (
          rows_of (
            deliver_outbound v.outside none v.new_id now v.delivery_mode s
              (sender, first ∷ more, raw)
              rows))
  unfolding deliver_outbound
  deliver_outbound-rows s sender first more raw now rows b =
      elim (Option-cases (write_outbound_eml v.outside raw)) [
        | inl missing ↦ rw (missing, deliver_outbound) tt
        | inr (file, written) ↦ elim (Option-cases (mode_of v.delivery_mode)) [
          | inl missing ↦ rw (written, missing, deliver_outbound) tt
          | inr (mode, known) ↦
              rw (written, known, deliver_outbound)
                ((mode, sender, first, more, raw, _, now, file, known, b, refl), tt)
        ]
      ]

  pub submit-rows :
      (c : Conn) (s : ProxySession) (sender raw first : Text) (more : List Text)
      → c.proxy_session ≡ some s
      → c.envelope_to ≡ first ∷ more
      → length raw ≤ v.max_message_bytes
      → All (IsOwnRow v c.proxy_session) c.outbound
      → All (IsOwnRow v c.proxy_session) (submit v c s sender raw).outbound
  unfolding submit
  submit-rows c s sender raw first more e t b h =
      rw (e, t)
        (All-append (IsSubmitted v s) c.outbound _ (rw e at h)
          (deliver_outbound-rows s sender first more raw (v.now (length c.outbound)) c.outbound b))
