-- ===== src/Shared/AgentLink/Others.antt =====
-- What the frames of other streams leave of a stream (shared/src/agentLink.ts).
use nexus_infra.Prelude.{
  ℕ, ◌<◌, String, ◌≡◌, refl, ap, ◌∙◌, false, Option, none, some, List, ◌==◌, arith, Bool-cases, inl,
  inr,
}
use nexus_infra.Prelude.Table.{get, set_at, get-put, get-remove}
use nexus_infra.Shared.AgentLink.{
  FrameType, frame_open, frame_data, frame_end, frame_reset, LinkSession, send, forget, modify,
  add_stream, accept_stream, remote_data, settle, remote_end, reset_frame, remote_reset,
  reset_reason, receive_open, receive_frame,
}
use nexus_infra.Shared.AgentLink.Effects.{IsValid, remote_reset-get, remote_reset-Resets}
use nexus_infra.Shared.AgentLink.Demux.{Live, pushed_at}

-- A step that leaves a stream live, and what was pushed to its reader as it was.
abbrev pub StaysLive : LinkSession → LinkSession → ℕ → ℕ → Type 0
StaysLive s s' id h = Live s' id h × (pushed_at s' h ≡ pushed_at s h)

module _ (utf8 : String → List ℕ) (text : List ℕ → String) where
  other_handle :
      (id k h handle : ℕ) (s : LinkSession)
      → IsValid s
      → get id s.streams ≡ some h
      → get k s.streams ≡ some handle
      → (k == id) ≡ false
      → (handle == h) ≡ false
  other_handle id k h handle s v e e' d =
      let (a, _, _) = v id h e in
      let (b, _, _) = v k handle e' in
      elim (Bool-cases (handle == h)) [
        | inr other ↦ other
        | inl this ↦
            let now : handle ≡ h = ground (arith, this) in
            let same : (s.objects handle).stream_id ≡ (s.objects h).stream_id =
              ap (λ x. (s.objects x).stream_id) now in
            absurd (ground (arith, a, b, same, d))
      ]

  pub send-Live :
      (m : List ℕ) (id h : ℕ) (s : LinkSession) → Live s id h → StaysLive s (send m s) id h
  unfolding send
  send-Live m id h s l = (
    record {
      found = ground (arith, l.found, l.up);
      more = ground (arith, l.more, l.up);
      up = ground (arith, l.up);
    },
    ground (arith, l.up),
  )

  remote_data-Live :
      (handle id h : ℕ) (payload : List ℕ) (s : LinkSession)
      → (handle == h) ≡ false
      → Live s id h
      → StaysLive s (remote_data handle payload s) id h
  unfolding remote_data modify set_at
  remote_data-Live handle id h payload s d l = (
    record {
      found = ground (arith, l.found);
      more = ground (arith, l.more, d);
      up = ground (arith, l.up);
    },
    ground (arith, d),
  )

  remote_end-Live :
      (handle id h : ℕ) (s : LinkSession)
      → (handle == h) ≡ false
      → ((s.objects handle).stream_id == id) ≡ false
      → Live s id h
      → StaysLive s (remote_end handle s) id h
  unfolding remote_end modify set_at settle forget
  remote_end-Live handle id h s d k l = (
    record {
      found = ground (arith, l.found, k, get-remove (s.objects handle).stream_id id s.streams);
      more = ground (arith, l.more, d);
      up = ground (arith, l.up);
    },
    ground (arith, d),
  )

  remote_reset-Live :
      (handle id h : ℕ) (reason : String) (s : LinkSession)
      → (s.objects handle).was_reset ≡ false
      → ((s.objects handle).stream_id == id) ≡ false
      → Live s id h
      → StaysLive s (remote_reset utf8 text handle reason s) id h
  remote_reset-Live handle id h reason s fresh k l =
      let r = remote_reset-Resets utf8 text handle reason s in
      (
        record {
          found = ground (arith, l.found, k, remote_reset-get utf8 text handle id reason s fresh);
          more = r.same_ended h ∙ l.more;
          up = r.same_closed ∙ l.up;
        },
        r.same_pushed h,
      )

  accept_stream-Live :
      (k id h : ℕ) (s : LinkSession)
      → (k == id) ≡ false
      → h < s.made
      → Live s id h
      → StaysLive s (accept_stream k s) id h
  unfolding accept_stream add_stream set_at
  accept_stream-Live k id h s d old l = (
    record {
      found = ground (arith, l.found, d, get-put k id s.made s.streams);
      more = ground (arith, l.more, old);
      up = ground (arith, l.up);
    },
    ground (arith, old),
  )

  pub receive_other-Live :
      (kind : FrameType) (k id h : ℕ) (payload : List ℕ) (stream : Option ℕ) (s : LinkSession)
      → get k s.streams ≡ stream
      → IsValid s
      → Live s id h
      → (k == id) ≡ false
      → StaysLive s (receive_frame utf8 text kind k payload stream s) id h
  unfolding receive_frame receive_open
  receive_other-Live frame_open k id h payload (some handle) s e v l d = send-Live _ id h s l
  receive_other-Live frame_open k id h payload none s e v l d = elim (Bool-cases s.accepts) [
    | inl agent ↦
        let same : receive_open utf8 text k none s ≡ accept_stream k s = ground (arith, agent) in
        let (_, old, _) = v id h l.found in rw same (accept_stream-Live k id h s d old l)
    | inr refusing ↦
        let answer = reset_frame utf8 text k "stream refused" in
        let same : receive_open utf8 text k none s ≡ send answer s = ground (arith, refusing) in
        rw same (send-Live answer id h s l)
  ]
  receive_other-Live frame_data k id h payload none s e v l d = send-Live _ id h s l
  receive_other-Live frame_end k id h payload none s e v l d = send-Live _ id h s l
  receive_other-Live frame_reset k id h payload none s e v l d = (l, refl)
  receive_other-Live frame_data k id h payload (some handle) s e v l d =
      remote_data-Live handle id h payload s (other_handle id k h handle s v l.found e d) l
  receive_other-Live frame_end k id h payload (some handle) s e v l d =
      let (same, _, _) = v k handle e in
      remote_end-Live handle id h s (other_handle id k h handle s v l.found e d)
        (ground (arith, same, d)) l
  receive_other-Live frame_reset k id h payload (some handle) s e v l d =
      let (same, _, fresh) = v k handle e in
      remote_reset-Live handle id h (reset_reason utf8 text payload) s fresh
        (ground (arith, same, d)) l
