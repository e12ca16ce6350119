-- ===== src/Probe/Switched.antt =====
-- `WebSocket.connect` of platform_probe.py: what the server has answered where a connection is made.
use liqi_platform.Prelude.{
  ℕ, String, Bool, true, false, not, Option, List, [], ◌∷◌, any, ◌≡◌, refl, sym, ap, ◌==◌,
  string_eq, eq_iff, Result, ok, err, ok-injective, arith, if◌then◌else◌,
}
use liqi_platform.Prelude.Int.{pos, beq_ℤ}
use liqi_platform.Prelude.Texts.{split, strip, lower}
use liqi_platform.Probe.Recorder.{Problem}
use liqi_platform.Probe.Phoenix.{Channel, Arrival}
use liqi_platform.Probe.Session.{Env, Live, Opening, refused, no_tls, connected}
use liqi_platform.Probe.Handshake.{
  Reply, header, accepts, parse_reply, read_headers, new_channel, handshake, opening_step,
  next_opening, connect,
}
use liqi_platform.Probe.Shown.{on_ok}

-- The answer of a server that has switched to the protocol, for the accept value that the key asks for.
pub record IsSwitched (accept : String) (reply : Reply) : Type 0 where
  pub status : beq_ℤ reply.status (pos 101) ≡ true
  pub accepted : header "sec-websocket-accept" reply.headers ≡ accept
  pub upgraded : lower (header "upgrade" reply.headers) ≡ "websocket"
  pub listed :
      any (λ item. lower (strip item) == "upgrade") (split "," (header "connection" reply.headers))
      ≡ true

unless_ok :
    (c : Bool) (e : Problem) (r : Result Problem (Unit {0})) {u : Unit {0}}
    → (if not c then err e else r) ≡ ok u
    → (c ≡ true) × (r ≡ ok u)
unless_ok true e r h = (refl, h)
unless_ok false e r h = absurd (ground arith)

-- The server of an opening that led to the channel.
pub record IsAnswered (env : Env) (openings : List Opening) (c : Channel) : Type 0 where
  pub accept : String
  pub chunks : List (List ℕ)
  pub sending : Result Problem (Unit {0})
  pub incoming : List Arrival
  pub others : List Opening
  pub opened : openings ≡ connected accept chunks sending incoming ∷ others
  pub response : List ℕ
  pub was_read : read_headers [] chunks ≡ ok response
  pub reply : Reply
  pub parsed : parse_reply env response ≡ ok reply
  pub switched : IsSwitched accept reply
  pub channel : c ≡ new_channel sending incoming

module _ (env : Env) where
  accepts-IsSwitched :
      (accept : String) (reply : Reply) {u : Unit {0}}
      → accepts env accept reply ≡ ok u
      → IsSwitched accept reply
  unfolding accepts
  accepts-IsSwitched accept reply h =
      let (a, h1) = unless_ok (beq_ℤ reply.status (pos 101)) _ _ h in
      let (b, h2) = unless_ok (header "sec-websocket-accept" reply.headers == accept) _ _ h1 in
      let (c, h3) = unless_ok (lower (header "upgrade" reply.headers) == "websocket") _ _ h2 in
      let (d, _) =
        unless_ok
          (any (λ item. lower (strip item) == "upgrade")
            (split "," (header "connection" reply.headers)))
          _ _ h3 in
      record { status = a; accepted = (eq_iff _ _).0 b; upgraded = (eq_iff _ _).0 c; listed = d }

  opening_step-IsAnswered :
      (x : Opening) (others : List Opening) (l : Live) {c : Channel} {k : Live}
      → opening_step env x l ≡ (ok c, k)
      → IsAnswered env (x ∷ others) c
  unfolding opening_step handshake
  opening_step-IsAnswered refused others l h = absurd (ground arith)
  opening_step-IsAnswered no_tls others l h = absurd (ground arith)
  opening_step-IsAnswered (connected accept chunks sending incoming) others l {c} h =
      on_ok _ _ l h λ response l1 e1 h1. on_ok _ _ l1 h1 λ _ l2 e2 h2.
        on_ok _ _ l2 h2 λ reply l3 e3 h3. on_ok _ _ l3 h3 λ _ l4 e4 h4. record {
          accept = accept;
          chunks = chunks;
          sending = sending;
          incoming = incoming;
          others = others;
          opened = refl;
          response = response;
          was_read = ap (λ (x : Result Problem (List ℕ) × Live). x.0) e1;
          reply = reply;
          parsed = ap (λ (x : Result Problem Reply × Live). x.0) e3;
          switched =
              accepts-IsSwitched accept reply
                (ap (λ (x : Result Problem (Unit {0}) × Live). x.0) e4);
          channel = sym (ok-injective (ap (λ (x : Result Problem Channel × Live). x.0) h4));
        }

  next_opening-IsAnswered :
      (t : Option String) (xs : List Opening) (l : Live) {c : Channel} {k : Live}
      → next_opening env t xs l ≡ (ok c, k)
      → IsAnswered env xs c
  unfolding opening_step
  next_opening-IsAnswered t [] l h = absurd (ground arith)
  next_opening-IsAnswered t (x ∷ others) l h = opening_step-IsAnswered x others _ h

  -- A connection is made only to a server that took the next opening and whose headers, read and parsed
  -- from its chunks, answer 101 with the accept value of the key, an upgrade to "websocket" and a
  -- connection list with "upgrade"; the channel that follows is new.
  pub connect-IsAnswered :
      (t : Option String) (l : Live) {c : Channel} {k : Live}
      → connect env t l ≡ (ok c, k)
      → IsAnswered env l.openings c
  unfolding connect
  connect-IsAnswered t l h = next_opening-IsAnswered t l.openings l h
