-- ===== src/Proxy/Whole.antt =====
-- The whole relay: what it gives to the client, and that its fuel is enough.
use mini_nginx.Common.{
  ℕ, zero, suc, ◌+◌, ◌<◌, ◌≡◌, refl, sym, ap, subst, ◌∙◌, [], ◌∷◌, ◌++◌, arith, length,
  length-append, false, Bool, if◌then◌else◌,
}
use mini_nginx.Python.Text.{Unicode}
use mini_nginx.Python.Utf8.{Bytes}
use mini_nginx.Pool.{Upstream}
use mini_nginx.Net.{World, Io, ok, client_write, client_drain}
use mini_nginx.Net.Binds.{>>=-eq-ok, >>=-eq}
use mini_nginx.Net.Reading.{content}
use mini_nginx.Timeouts.{TimeoutPolicy}
use mini_nginx.Proxy.Response.{
  beside_client, Relayed, Received, read_chunk-Received, client_drain-ok, relay_chunk-Relayed,
  round-Relayed, end-Relayed,
}
use mini_nginx.Proxy.Relay.{
  Progress, advance, read_chunk, relay_chunk, relay, parse_status_from_chunk,
}

-- A relay that ends well, from `p` in `w` to `p'` in `w'`.
pub record RelayEnds (p p' : Progress) (w w' : World) : Type 0 where
  pub relayed : Relayed (content w.upstream_in) w w'
  pub counted : p'.total_bytes ≡ p.total_bytes + length (content w.upstream_in)
  pub kept : p.first_chunk ≡ false → p'.response_status ≡ p.response_status

module _ ⦃u : Unicode⦄ where
  RelayEnds-nil : (p p' : Progress) (w v : World) → Received [] w v → p' ≡ p → RelayEnds p p' w v
  RelayEnds-nil p p' w v got e =
      let none_left : content w.upstream_in ≡ [] = got.at_end refl in
      record {
        relayed = end-Relayed w v got;
        counted = omega (arith, ap length none_left, ap (λ (q : Progress). q.total_bytes) e);
        kept = λ h. ap (λ (q : Progress). q.response_status) e;
      }

  RelayEnds-cons :
      (b : ℕ) (bytes : Bytes) (p p' : Progress) (w v z x : World)
      → Received (b ∷ bytes) w v
      → z.client_out.written ≡ v.client_out.written ++ b ∷ bytes
      → beside_client z ≡ beside_client v
      → RelayEnds (advance (b ∷ bytes) p) p' z x
      → RelayEnds p p' w x
  RelayEnds-cons b bytes p p' w v z x got wrote kept later =
      let chunk : Bytes = b ∷ bytes in
      let from : content z.upstream_in ≡ content v.upstream_in = ap (λ q. content q.0) kept in
      let all : chunk ++ content z.upstream_in ≡ content w.upstream_in =
        ap (λ c. chunk ++ c) from ∙ sym got.taken in
      record {
        relayed =
            subst (λ c. Relayed c w x) all
              (round-Relayed chunk (content z.upstream_in) w v z x got wrote kept later.relayed);
        counted =
            omega
              (arith, later.counted, ap length all, length-append chunk (content z.upstream_in));
        kept = λ h.
            later.kept refl
            ∙ ap (λ (t : Bool). if t then parse_status_from_chunk chunk else p.response_status) h;
      }

module _ ⦃u : Unicode⦄ (policy : TimeoutPolicy) (upstream : Upstream) where
  -- A relay that ends well has given all of the response to the client, and counted its bytes.
  pub relay-RelayEnds :
      (fuel : ℕ) (p p' : Progress) (w w' : World)
      → relay fuel policy upstream p w ≡ (ok p', w')
      → RelayEnds p p' w w'
  unfolding relay
  relay-RelayEnds zero p p' w w' e = cc
  relay-RelayEnds (suc fuel) p p' w w' e =
      let (chunk, v, got, later) =
        >>=-eq-ok (read_chunk policy upstream) (λ c. relay_chunk c p (relay fuel policy upstream)) w
          e in
      go chunk v (read_chunk-Received policy upstream w v chunk got) later
        (λ q z. relay-RelayEnds fuel q p' z w')
    where
      go :
          (chunk : Bytes) (v : World)
          → Received chunk w v
          → relay_chunk chunk p (relay fuel policy upstream) v ≡ (ok p', w')
          → ((q : Progress) (z : World)
              → relay fuel policy upstream q z ≡ (ok p', w')
              → RelayEnds q p' z w')
          → RelayEnds p p' w w'
      go [] v got later ih =
          unfold relay_chunk in
          subst (RelayEnds p p' w) (cc later) (RelayEnds-nil p p' w v got (cc later))
      go (b ∷ bytes) v got later ih =
          let (z, rest, wrote, kept) =
            relay_chunk-Relayed b bytes p p' (relay fuel policy upstream) v w' later in
          RelayEnds-cons b bytes p p' w v z w' got wrote kept (ih (advance (b ∷ bytes) p) z rest)

  relay_chunk-eq :
      (chunk : Bytes) (p : Progress) (f g : Progress → Io Progress) (w v : World)
      → Received chunk w v
      → ((q : Progress) (z : World)
          → length (content z.upstream_in) < length (content w.upstream_in)
          → f q z ≡ g q z)
      → relay_chunk chunk p f v ≡ relay_chunk chunk p g v
  unfolding relay_chunk
  relay_chunk-eq [] p f g w v got h = refl
  relay_chunk-eq (b ∷ bytes) p f g w v got h =
      let written : World = (client_write (b ∷ bytes) v).1 in
      >>=-eq client_drain (λ y. f (advance (b ∷ bytes) p)) (λ y. g (advance (b ∷ bytes) p)) written
        (λ y z drained.
          let from : content z.upstream_in ≡ content v.upstream_in =
            ap (λ q. content q.0) (client_drain-ok written z drained).1 in
          h (advance (b ∷ bytes) p) z (
            omega (
              arith,
              ap length from,
              ap length got.taken,
              length-append (b ∷ bytes) (content v.upstream_in),
            )))

  -- More fuel than the response has bytes changes nothing, however the relay ends.
  pub relay-fuel :
      (m n : ℕ) (p : Progress) (w : World)
      → length (content w.upstream_in) < m
      → length (content w.upstream_in) < n
      → relay m policy upstream p w ≡ relay n policy upstream p w
  unfolding relay
  relay-fuel zero n p w h k = absurd (omega arith)
  relay-fuel (suc m) zero p w h k = absurd (omega arith)
  relay-fuel (suc m) (suc n) p w h k =
      >>=-eq (read_chunk policy upstream) (λ c. relay_chunk c p (relay m policy upstream))
        (λ c. relay_chunk c p (relay n policy upstream)) w
        (λ chunk v got.
          relay_chunk-eq chunk p (relay m policy upstream) (relay n policy upstream) w v
            (read_chunk-Received policy upstream w v chunk got)
            (λ q z less. relay-fuel m n q z (omega arith) (omega arith)))
