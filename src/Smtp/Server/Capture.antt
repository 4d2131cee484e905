-- ===== src/Smtp/Server/Capture.antt =====
-- app/proxies/smtp/server.py with delivery.py: a transaction in capture mode.
use mind_wall.Prelude.{
  ℕ, ◌≤◌, ◌≡◌, refl, ap, ◌∙◌, true, arith, take, none, some, List, [], ◌∷◌, ◌++◌, length, All, map,
}
use mind_wall.Wire.{Text, codes}
use mind_wall.Imap.Auth.{ProxySession}
use mind_wall.Smtp.Delivery.{
  OutboundMessage, capture, captured, mode_of, write_outbound_eml, delivered, outbound_row,
  deliver_outbound,
}
use mind_wall.Smtp.Lines.{Input}
use mind_wall.Smtp.Lines.Stuffing.{IsLine, join, stuffed, collect_data-stuffed}
use mind_wall.Smtp.Commands.{
  auth, rcpt, Conn, Server, send, reset_envelope, submit, collected, cmd_data, and_rest,
}
use mind_wall.Smtp.Server.{
  with_data, going_on, next_of, early_data, run_authenticated, when_authenticated, run_command,
}

module _ (v : Server) (capturing : v.delivery_mode ≡ codes "capture") where
  capture_mode : mode_of v.delivery_mode ≡ some capture
  unfolding mode_of
  capture_mode = ap mode_of capturing

  abbrev stored : Text → Text × Text
  stored raw = (
    v.outside.sha256 raw,
    take 2 (v.outside.sha256 raw) ++ codes "/" ++ v.outside.sha256 raw ++ codes ".eml",
  )

  written_file :
      (raw : Text)
      → v.outside.write_eml raw ≡ true
      → write_outbound_eml v.outside raw ≡ some (stored raw)
  unfolding write_outbound_eml
  written_file raw written = rw (written, write_outbound_eml) refl

  -- The row that capture mode gives.
  captured_row :
      (s : ProxySession) (sender : Text) (recipients : List Text) (raw : Text) (now : ℕ)
      (rows : List OutboundMessage)
      → v.outside.write_eml raw ≡ true
      → (row : OutboundMessage) × (deliver_outbound v.outside none v.new_id now v.delivery_mode s
            (sender, recipients, raw)
            rows
          ≡ some row)
        × (row.delivery_status ≡ captured)
        × (row.mailbox_profile_id ≡ s.mailbox_profile_id)
        × (row.envelope_from ≡ sender)
        × (row.envelope_to_json ≡ v.outside.dumps recipients)
        × (row.raw_size_bytes ≡ length raw)
  unfolding deliver_outbound outbound_row delivered
  captured_row s sender recipients raw now rows written =
      let row =
        outbound_row v.outside none capture s (sender, recipients, raw)
          (v.new_id (map (λ (x : OutboundMessage). x.id) rows)) now (stored raw) in
      (
        row,
        rw (written_file raw written, capture_mode, deliver_outbound) refl,
        refl,
        refl,
        refl,
        refl,
        refl,
      )

  -- In capture mode, the DATA command of a connection that is logged in and has a sender and
  -- recipients takes the stuffed lines of a message that is within the limit and that the store can
  -- write: exactly one row is added, a captured one with the profile of the session, the sender, the
  -- recipients and the size of the message; the connection is ready for the next message, and reads
  -- on behind the end of this one.
  pub data_captured :
      (name args : Text) (c : Conn) (s : ProxySession) (sender : Text) (ls : List Text)
      (inputs : List Input)
      → c.state ≡ rcpt
      → c.proxy_session ≡ some s
      → c.envelope_from ≡ some sender
      → All IsLine ls
      → length (join ls) ≤ v.max_message_bytes
      → v.outside.write_eml (join ls) ≡ true
      → (c' : Conn) × (row : OutboundMessage) × (run_command v name args c
            (stuffed ls inputs)
            with_data
          ≡ going_on c' inputs)
        × (c'.outbound ≡ c.outbound ++ row ∷ [])
        × (row.delivery_status ≡ captured)
        × (row.mailbox_profile_id ≡ s.mailbox_profile_id)
        × (row.envelope_from ≡ sender)
        × (row.envelope_to_json ≡ v.outside.dumps c.envelope_to)
        × (row.raw_size_bytes ≡ length (join ls))
        × (c'.state ≡ auth)
        × (c'.proxy_session ≡ some s)
        × (c'.envelope_to ≡ [])
  unfolding run_command when_authenticated run_authenticated cmd_data collected submit
      reset_envelope
  data_captured name args c s sender ls inputs st se from lines fits written =
      let asked = send c (codes "354 Start mail input; end with <CRLF>.<CRLF>") in
      let raw = join ls in
      let (row, e, status, profile, by, to, size) =
        captured_row s sender c.envelope_to raw (v.now (length c.outbound)) c.outbound written in
      let data_read =
        collect_data-stuffed v.max_message_bytes 0 ls inputs lines (omega (arith, fits)) in
      let run : run_command v name args c (stuffed ls inputs) with_data
          ≡ going_on (submit v asked s sender raw) inputs =
        ap (λ o. when_authenticated v name args c (stuffed ls inputs) with_data o) se
        ∙ (ap
              (λ q.
                next_of (early_data c (cmd_data v c s (stuffed ls inputs)) (stuffed ls inputs) q))
              st
            ∙ (ap (λ x. next_of (and_rest (collected v asked s c.envelope_from x.0) x.1)) data_read
                ∙ ap (λ o. next_of (and_rest (collected v asked s o (some raw)) inputs)) from)) in
      (
        submit v asked s sender raw,
        row,
        run,
        rw e refl,
        status,
        profile,
        by,
        to,
        size,
        rw se refl,
        se,
        refl,
      )
