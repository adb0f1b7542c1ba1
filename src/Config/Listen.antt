-- ===== src/Config/Listen.antt =====
-- A listening address that is written as `host:port` is read back.
use mini_nginx.Common.{
  ℕ, ◌≤◌, ◌≡◌, ◌≢◌, refl, ap, ◌∙◌, some, [], ◌∷◌, ◌++◌, pos, arith, length, ◌>>=◌, nat_eq,
}
use mini_nginx.Python.Text.{Text, Unicode, strip, rsplit_once}
use mini_nginx.Python.Text.Laws.{HasNoSpace, strip-HasNoSpace, strip-append, rsplit_once-append}
use mini_nginx.Python.Number.{show_nat}
use mini_nginx.Python.Number.Laws.{
  show_nat-AllDigits, AllDigits-HasNoSpace, AllDigits-Lacks, int-show_nat,
}
use mini_nginx.Config.{parse_listen, host_and_port, or_else, loopback}

pub or_else-solid : (host default : Text) → host ≢ [] → or_else host default ≡ host
or_else-solid [] default h = absurd (h refl)
or_else-solid (c ∷ s) default h = refl

module _ ⦃u : Unicode⦄ where
  -- The address of a host that is not empty and holds no whitespace, and of a port of 4300 digits at most,
  -- is read back from `host:port`; colons of the host itself stay in it.
  pub parse_listen-show_nat :
      (host : Text) (port : ℕ)
      → host ≢ []
      → HasNoSpace host
      → length (show_nat port) ≤ 4300
      → parse_listen (host ++ b':' ∷ show_nat port) ≡ some (host, pos port)
  unfolding parse_listen
  parse_listen-show_nat host port solid spaceless short =
      let digits : Text = show_nat port in
      let plain : HasNoSpace (b':' ∷ digits) =
        (refl, AllDigits-HasNoSpace digits (show_nat-AllDigits port)) in
      let stripped : strip (host ++ b':' ∷ digits) ≡ host ++ b':' ∷ digits =
        strip-append host (b':' ∷ digits) spaceless plain in
      let cut : rsplit_once b':' (host ++ b':' ∷ digits) ≡ some (host, digits) =
        rsplit_once-append b':' host digits
          (AllDigits-Lacks b':' digits (omega arith) (show_nat-AllDigits port)) in
      let read : host_and_port (host, digits) ≡ some (host, pos port) =
        ap (λ o. o >>= λ p. some (or_else (strip host) loopback, p)) (int-show_nat port short)
        ∙ ap (λ h. some (or_else h loopback, pos port)) (strip-HasNoSpace host spaceless)
        ∙ ap (λ h. some (h, pos port)) (or_else-solid host loopback solid) in
      rw (stripped, cut, parse_listen) read
