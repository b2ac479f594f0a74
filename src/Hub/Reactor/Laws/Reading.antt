-- ===== src/Hub/Reactor/Laws/Reading.antt =====
-- What the functions of a reactor that receive keep: every call of HandleReadable on a session.
use hi_im_core.Hub.Router
use hi_im_core.Prelude.{
  Bool, Option-cases, Run, [], done, false, if◌then◌else◌, inl, inr, length, lookup, ltb, not, refl,
  some, true, ℕ, ◌==◌, ◌||◌, ◌≡◌,
}
use hi_im_core.Hub.Reactor.{Reactor, Session, close_session, put_session, with_router}
use hi_im_core.Hub.Reactor.Input.{
  acknowledge, authenticate, credentials_match, handle_system, on_auth, on_sub, on_unsub, read_cmd,
}
use hi_im_core.Hub.Reactor.Laws.Linked.{lookup-insert_same}
use hi_im_core.Hub.Reactor.Laws.Sound.{
  Failure, Fixed, IsSound, Known, Reaches, Reaches-then, Stays, access-Keeps, close_session-IsSound,
  put_session-IsSound,
}
use hi_im_core.Hub.Reactor.Laws.Writing.{send_bytes-Keeps}
use hi_im_core.Hub.Reactor.Output.{Kernel, send_bytes}
use hi_im_core.Hub.Router.{Router, Subscriber}
use hi_im_core.Wire.Auth.{AuthPayload, decode_auth_payload}
use hi_im_core.Wire.Bytes.{Endian, be_to_host32}
use hi_im_core.Wire.FrameBuffer.{FrameView}
use hi_im_core.Wire.Header.{encode_frame, flag_sys, header_field_host}
use hi_im_core.Wire.SysCmd.{
  SysCmd, auth_ack, auth_req, code, kpalive_ack, kpalive_req, sub_ack, sub_req, unsub_ack,
  unsub_req,
}

-- An answer true is given where the session is there, or is closed and D holds.
abbrev pub Answers : Fixed → Type 0 → ℕ → ℕ → Bool × Reactor → Type 0
Answers base D n k (answer, r) = IsSound base r × (answer ≡ true → Stays base D n k r)

pub Reaches-if :
    {A : Type 0} (D : Type 0) (Q : A → Type 0) (b : Bool) (m m' : Run A)
    → (b ≡ true → Reaches D Q m)
    → (b ≡ false → Reaches D Q m')
    → Reaches D Q (if b then m else m')
Reaches-if D Q true m m' yes_case no_case = yes_case refl
Reaches-if D Q false m m' yes_case no_case = no_case refl

with_router-Stays :
    (base : Fixed) (D : Type 0) (n k : ℕ) (f : Router → Router) (r : Reactor)
    → Stays base D n k r
    → Stays base D n k (with_router f r)
with_router-Stays base D n k f r (sound, here_or_not) = (
  record {
    linked = sound.linked;
    fresh = sound.fresh;
    owns = sound.owns;
    some_worker = sound.some_worker;
    queues = sound.queues;
    same = sound.same;
  },
  here_or_not,
)

closed-Answers :
    (base : Fixed) (D : Type 0) (n k sid : ℕ) (r : Reactor)
    → IsSound base r
    → Answers base D n k (false, close_session sid r)
closed-Answers base D n k sid r sound = (close_session-IsSound sid r sound, λ h. absurd (cc h))

module _ (e : Endian) (kernel : Kernel) (base : Fixed) (D : Type 0) (failed : Failure kernel → D)
    (n k : ℕ) where
  abbrev AnswersWell : Run (Bool × Reactor) → Type 0
  AnswersWell m = Reaches D (Answers base D n k) m

  acknowledge-Answers :
      (ack : SysCmd) (nid : ℕ) (r : Reactor)
      → Stays base D n k r
      → AnswersWell (acknowledge e kernel ack nid k r)
  unfolding acknowledge
  acknowledge-Answers ack nid r stays =
      Reaches-then D (Stays base D n k) (Answers base D n k)
        (send_bytes kernel k (encode_frame e (code ack) nid flag_sys []) r) (λ r'. done (true, r'))
        (send_bytes-Keeps kernel base D failed n k (encode_frame e (code ack) nid flag_sys []) r
          stays)
        (λ r' stays'. (stays'.0, λ h. stays'))

  module _ (s : Session) (r : Reactor) (there : lookup k r.sessions ≡ some s) (known : Known D n s)
      (sound : IsSound base r) where
    -- The session after the login.
    abbrev logged_in : AuthPayload → Session
    logged_in auth = record s {
      authed = true;
      gid = be_to_host32 e auth.gid;
      nid = be_to_host32 e auth.nid;
    }

    authenticate-Answers : (auth : AuthPayload) → AnswersWell (authenticate e kernel auth k s r)
    unfolding authenticate
    authenticate-Answers auth =
        Reaches-if D (Answers base D n k) (credentials_match r.ctx.cfg auth) _ _
          (λ match. acknowledge-Answers auth_ack (be_to_host32 e auth.nid) _ (
            with_router-Stays base D n k
              (Router.bind_nid (be_to_host32 e auth.nid) s.sid (some r.idx))
              (put_session k (logged_in auth) r)
              (
                put_session-IsSound k s (logged_in auth) r sound there refl refl,
                inl (
                  logged_in auth,
                  lookup-insert_same k (logged_in auth) r.sessions,
                  (inl refl, known.1),
                ),
              )))
          (λ differ. closed-Answers base D n k s.sid r sound)

    on_auth-Answers : (frame : FrameView) → AnswersWell (on_auth e kernel frame k s r)
    unfolding on_auth
    on_auth-Answers frame = elim (Option-cases (decode_auth_payload e frame.payload)) [
      | inl short ↦ rw (on_auth, short) (closed-Answers base D n k s.sid r sound)
      | inr (auth, full) ↦ rw (on_auth, full) (authenticate-Answers auth)
    ]

    -- The subscription that SUB_REQ makes.
    abbrev subscriber : Subscriber
    subscriber = record { gid = s.gid; sid = s.sid; nid = s.nid; reactor_idx = some r.idx }

    on_sub-Answers : (frame : FrameView) → AnswersWell (on_sub e kernel frame k s r)
    unfolding on_sub
    on_sub-Answers frame =
        Reaches-if D (Answers base D n k) (not s.authed || ltb (length frame.payload) 4) _ _
          (λ bad. closed-Answers base D n k s.sid r sound)
          (λ good. acknowledge-Answers sub_ack s.nid _ (
            with_router-Stays base D n k
              (λ router. (Router.subscribe (read_cmd e frame) subscriber router).1) r
              (sound, inl (s, there, known))))

    on_unsub-Answers : (frame : FrameView) → AnswersWell (on_unsub e kernel frame k s r)
    unfolding on_unsub
    on_unsub-Answers frame =
        Reaches-if D (Answers base D n k) (not s.authed || ltb (length frame.payload) 4) _ _
          (λ bad. (sound, λ h. absurd (cc h)))
          (λ good. acknowledge-Answers unsub_ack s.nid _ (
            with_router-Stays base D n k
              (λ router. (Router.unsubscribe (read_cmd e frame) s.sid router).1) r
              (sound, inl (s, there, known))))

  pub handle_system-Answers :
      (frame : FrameView) (r : Reactor)
      → Stays base D n k r
      → AnswersWell (handle_system e kernel k frame r)
  unfolding handle_system
  handle_system-Answers frame r stays =
      access-Keeps base D (Answers base D n k) n k r _ stays (λ s there known.
        let type = header_field_host e frame.header.type in
        Reaches-if D (Answers base D n k) (type == code auth_req) _ _
          (λ h. on_auth-Answers s r there known stays.0 frame)
          (λ h.
            Reaches-if D (Answers base D n k) (type == code sub_req) _ _
              (λ h. on_sub-Answers s r there known stays.0 frame)
              (λ h.
                Reaches-if D (Answers base D n k) (type == code unsub_req) _ _
                  (λ h. on_unsub-Answers s r there known stays.0 frame)
                  (λ h.
                    Reaches-if D (Answers base D n k) (type == code kpalive_req) _ _
                      (λ h. acknowledge-Answers kpalive_ack s.nid r stays)
                      (λ h. (stays.0, λ h. stays))))))
