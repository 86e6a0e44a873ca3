-- ===== src/Shared/AgentLink/Reading.antt =====
-- What a received frame does to its own stream of an agent link (shared/src/agentLink.ts).
use mathlib.Core.List.{append-nil, append_assoc}
use nexus_infra.Prelude.{
  ℕ, String, ◌≡◌, sym, ap, ◌∙◌, true, false, none, some, List, [], ◌∷◌, ◌++◌, arith,
}
use nexus_infra.Prelude.Table.{get, set_at}
use nexus_infra.Shared.AgentLink.{
  Frame, FrameType, frame_open, frame_data, frame_end, frame_reset, decode_frame, LinkSession,
  forget, modify, remote_data, settle, remote_end, reset_frame, remote_reset, reset_reason,
  receive_open, receive_frame, receive,
}
use nexus_infra.Shared.AgentLink.Effects.{
  IsValid, remote_end-Follows, remote_reset-get, remote_reset-Resets, remote_reset-Follows,
}
use nexus_infra.Shared.AgentLink.Demux.{reads_here, Gone, Live, pushed_at, remote_end-pushed}
use nexus_infra.Shared.AgentLink.Others.{send-Live}

module _ (utf8 : String → List ℕ) (text : List ℕ → String) where
  -- A frame of the stream itself, and what follows.
  pub data Own (s s' : LinkSession) (id h : ℕ) (kind : FrameType) (payload : List ℕ) : Type 0 where
    goes_on :
        Live s' id h
        → ((rest : List (List ℕ))
            → pushed_at s' h ++ rest ≡ pushed_at s h ++ reads_here kind payload rest)
        → Own s s' id h kind payload
    stops :
        Gone s' h
        → ((rest : List (List ℕ)) → pushed_at s' h ≡ pushed_at s h ++ reads_here kind payload rest)
        → Own s s' id h kind payload

  remote_data-own :
      (id h : ℕ) (payload : List ℕ) (s : LinkSession)
      → Live s id h
      → Live (remote_data h payload s) id h
        × (pushed_at (remote_data h payload s) h ≡ pushed_at s h ++ payload ∷ [])
  unfolding remote_data modify set_at
  remote_data-own id h payload s l = (
    record {
      found = ground (arith, l.found);
      more = ground (arith, l.more);
      up = ground (arith, l.up);
    },
    ground (arith, l.more),
  )

  remote_end-ended : (h : ℕ) (s : LinkSession) → ((remote_end h s).objects h).remote_ended ≡ true
  unfolding remote_end modify set_at settle forget
  remote_end-ended h s = ground arith

  remote_reset-own :
      (id h : ℕ) (reason : String) (s : LinkSession)
      → IsValid s
      → Live s id h
      → Gone (remote_reset utf8 text h reason s) h
  remote_reset-own id h reason s v l =
      let f = remote_reset-Follows utf8 text h reason s in
      let (own, old, fresh) = v id h l.found in
      record {
        made = omega (arith, f.same_made, old);
        ended = λ k e.
            let (at, _, _) = v k h (f.fewer k h e) in
            absurd (ground (arith, e, at, remote_reset-get utf8 text h k reason s fresh));
      }

  pub receive-Own :
      (kind : FrameType) (id h : ℕ) (payload : List ℕ) (s : LinkSession)
      → IsValid s
      → Live s id h
      → Own s (receive_frame utf8 text kind id payload (some h) s) id h kind payload
  unfolding receive_frame receive_open reads_here
  receive-Own frame_open id h payload s v l =
      let (l', same) = send-Live utf8 text (reset_frame utf8 text id "stream refused") id h s l in
      goes_on l' (λ rest. ap (λ p. p ++ rest) same)
  receive-Own frame_data id h payload s v l =
      let (l', same) = remote_data-own id h payload s l in
      goes_on l'
        (λ rest. ap (λ p. p ++ rest) same ∙ append_assoc (pushed_at s h) (payload ∷ []) rest)
  receive-Own frame_end id h payload s v l =
      let f = remote_end-Follows h s in
      let (_, old, _) = v id h l.found in
      stops (record { made = omega (arith, f.same_made, old); ended = λ k e. remote_end-ended h s })
        (λ rest. remote_end-pushed h h s ∙ sym (append-nil (pushed_at s h)))
  receive-Own frame_reset id h payload s v l =
      let reason = reset_reason utf8 text payload in
      stops (remote_reset-own id h reason s v l) (λ rest.
        (remote_reset-Resets utf8 text h reason s).same_pushed h ∙ sym (append-nil (pushed_at s h)))

  pub receive-garbage :
      (m : List ℕ) (s : LinkSession) → decode_frame m ≡ none → receive utf8 text m s ≡ s
  unfolding receive
  receive-garbage m s bad = ground (arith, bad)

  pub receive-frame :
      (m : List ℕ) (s : LinkSession) (f : Frame)
      → s.closed ≡ false
      → decode_frame m ≡ some f
      → receive utf8 text m s
        ≡ receive_frame utf8 text f.kind f.stream_id f.payload (get f.stream_id s.streams) s
  unfolding receive
  receive-frame m s f up e = ground (arith, up, e)
