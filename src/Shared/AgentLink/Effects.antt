-- ===== src/Shared/AgentLink/Effects.antt =====
-- What a received frame changes in a session of the agent link (shared/src/agentLink.ts).
use nexus_infra.Prelude.{
  ℕ, ◌<◌, String, ◌≡◌, refl, ◌∙◌, true, false, none, some, List, if◌then◌else◌, ◌==◌, arith,
  Bool-cases, inl, inr,
}
use nexus_infra.Prelude.Table.{get, set_at, get-remove}
use nexus_infra.Shared.AgentLink.{
  LinkSession, send, forget, modify, remote_data, settle, remote_end, on_destroy, destroy,
  remote_reset,
}

-- The table of streams agrees with the streams themselves, and has none that was reset.
abbrev pub IsValid : LinkSession → Type 0
IsValid s =
    (id handle : ℕ)
    → get id s.streams ≡ some handle
    → ((s.objects handle).stream_id ≡ id)
      × (handle < s.made)
      × ((s.objects handle).was_reset ≡ false)

-- A step that opens no stream.
pub record Follows (s s' : LinkSession) : Type 0 where
  pub same_id : (h : ℕ) → (s'.objects h).stream_id ≡ (s.objects h).stream_id
  pub fewer : (k h : ℕ) → get k s'.streams ≡ some h → get k s.streams ≡ some h
  pub same_made : s'.made ≡ s.made
  pub same_closed : s'.closed ≡ s.closed
  pub still_ended : (h : ℕ) → (s.objects h).remote_ended ≡ true → (s'.objects h).remote_ended ≡ true
  pub still_open :
      (k h : ℕ)
      → get k s'.streams ≡ some h
      → (s.objects h).stream_id ≡ k
      → (s.objects h).was_reset ≡ false
      → (s'.objects h).was_reset ≡ false

pub Follows-IsValid : {s s' : LinkSession} → Follows s s' → IsValid s → IsValid s'
Follows-IsValid f v id handle h =
    let (same, small, live) = v id handle (f.fewer id handle h) in
    (f.same_id handle ∙ same, omega (arith, f.same_made, small), f.still_open id handle h same live)

pub Follows-refl : (s : LinkSession) → Follows s s
Follows-refl s = record {
  same_id = λ h. refl;
  fewer = λ k h e. e;
  same_made = refl;
  same_closed = refl;
  still_ended = λ h e. e;
  still_open = λ k h e same live. live;
}

pub send-Follows : (m : List ℕ) (s : LinkSession) → Follows s (send m s)
unfolding send
send-Follows m s = record {
  same_id = λ h. ground arith;
  fewer = λ k h e. ground (arith, e);
  same_made = ground arith;
  same_closed = ground arith;
  still_ended = λ h e. ground (arith, e);
  still_open = λ k h e same live. ground (arith, live);
}

pub remote_data-Follows :
    (handle : ℕ) (payload : List ℕ) (s : LinkSession) → Follows s (remote_data handle payload s)
unfolding remote_data modify set_at
remote_data-Follows handle payload s = record {
  same_id = λ h. ground arith;
  fewer = λ k h e. ground (arith, e);
  same_made = ground arith;
  same_closed = ground arith;
  still_ended = λ h e. ground (arith, e);
  still_open = λ k h e same live. ground (arith, live);
}

pub remote_end-Follows : (handle : ℕ) (s : LinkSession) → Follows s (remote_end handle s)
unfolding remote_end modify set_at settle forget
remote_end-Follows handle s = record {
  same_id = λ h. ground arith;
  fewer = λ k h e. ground (arith, e, get-remove (s.objects handle).stream_id k s.streams);
  same_made = ground arith;
  same_closed = ground arith;
  still_ended = λ h e. ground (arith, e);
  still_open = λ k h e same live. ground (arith, live);
}

module _ (utf8 : String → List ℕ) (text : List ℕ → String) where
  pub remote_reset-get :
      (handle k : ℕ) (reason : String) (s : LinkSession)
      → (s.objects handle).was_reset ≡ false
      → get k (remote_reset utf8 text handle reason s).streams
        ≡ (if (s.objects handle).stream_id == k then none else get k s.streams)
  unfolding remote_reset destroy on_destroy modify forget set_at
  remote_reset-get handle k reason s live = ground (
    arith,
    live,
    get-remove (s.objects handle).stream_id k s.streams,
    get-remove (s.objects handle).stream_id k (forget (s.objects handle).stream_id s).streams,
  )

  pub remote_reset-again :
      (handle : ℕ) (reason : String) (s : LinkSession)
      → (s.objects handle).was_reset ≡ true
      → remote_reset utf8 text handle reason s ≡ s
  unfolding remote_reset
  remote_reset-again handle reason s again = ground (arith, again)

  -- A reset changes nothing that a reader sees.
  pub record Resets (handle : ℕ) (s s' : LinkSession) : Type 0 where
    pub same_id : (h : ℕ) → (s'.objects h).stream_id ≡ (s.objects h).stream_id
    pub same_pushed : (h : ℕ) → (s'.objects h).pushed ≡ (s.objects h).pushed
    pub same_ended : (h : ℕ) → (s'.objects h).remote_ended ≡ (s.objects h).remote_ended
    pub same_made : s'.made ≡ s.made
    pub same_closed : s'.closed ≡ s.closed

  pub remote_reset-Resets :
      (handle : ℕ) (reason : String) (s : LinkSession)
      → Resets handle s (remote_reset utf8 text handle reason s)
  unfolding remote_reset destroy on_destroy modify forget set_at
  remote_reset-Resets handle reason s = record {
    same_id = λ h. ground arith;
    same_pushed = λ h. ground arith;
    same_ended = λ h. ground arith;
    same_made = ground arith;
    same_closed = ground arith;
  }

  pub remote_reset-open :
      (handle k h : ℕ) (reason : String) (s : LinkSession)
      → get k (remote_reset utf8 text handle reason s).streams ≡ some h
      → (s.objects h).stream_id ≡ k
      → (s.objects h).was_reset ≡ false
      → ((remote_reset utf8 text handle reason s).objects h).was_reset ≡ false
  remote_reset-open handle k h reason s e same live = elim (Bool-cases (handle == h)) [
    | inl this ↦
        let eq : handle ≡ h = ground (arith, this) in
        let open_now : (s.objects handle).was_reset ≡ false = rw eq live in
        let id_now : (s.objects handle).stream_id ≡ k = rw eq same in
        absurd (ground (arith, e, id_now, remote_reset-get handle k reason s open_now))
    | inr other ↦
        unfold remote_reset destroy on_destroy modify forget set_at in ground (arith, other, live)
  ]

  pub remote_reset-Follows :
      (handle : ℕ) (reason : String) (s : LinkSession)
      → Follows s (remote_reset utf8 text handle reason s)
  remote_reset-Follows handle reason s =
      let r = remote_reset-Resets handle reason s in
      record {
        same_id = r.same_id;
        fewer = λ k h e. elim (Bool-cases (s.objects handle).was_reset) [
          | inl again ↦
              let same = remote_reset-again handle reason s again in ground (arith, e, same)
          | inr live ↦ ground (arith, e, live, remote_reset-get handle k reason s live)
        ];
        same_made = r.same_made;
        same_closed = r.same_closed;
        still_ended = λ h e. r.same_ended h ∙ e;
        still_open = λ k h e same live. remote_reset-open handle k h reason s e same live;
      }
