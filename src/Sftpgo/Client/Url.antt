-- ===== src/Sftpgo/Client/Url.antt =====
-- The address of a service.
use text.Mathlib.TextLemmas.{append_assoc, append_cancel_left}
use sftpgo_operator.Base.{ℕ, String, ◌<>◌, ◌≡◌, ◌∙◌, ap, sym, true, pos}
use sftpgo_operator.Base.Text.{decimal}
use sftpgo_operator.Base.Decimal.{value, are_digits, decimal-value}
use sftpgo_operator.Sftpgo.Client.{service_url}

-- The address up to the port.
abbrev pub host_part : String → String → String
host_part name namespace = "http://" <> (name <> ("." <> (namespace <> ".svc.cluster.local:")))

-- The address ends in the digits of the port, all of them, whatever its size: read back they give
-- the port.
pub service_url-port :
    (name namespace : String) (n : ℕ)
    → (digits : String) × (service_url name namespace (pos n) ≡ host_part name namespace <> digits)
      × (are_digits digits ≡ true)
      × (value 0 digits ≡ n)
unfolding service_url
service_url-port name namespace n =
    (decimal (pos n), simp append_assoc, (decimal-value n).1, (decimal-value n).0)

-- Services at different ports have different addresses.
pub service_url_inj :
    (name namespace : String) (m n : ℕ)
    → service_url name namespace (pos m) ≡ service_url name namespace (pos n)
    → m ≡ n
service_url_inj name namespace m n h =
    let (s, at_m, s_digits, s_value) = service_url-port name namespace m in
    let (t, at_n, t_digits, t_value) = service_url-port name namespace n in
    let same : s ≡ t = append_cancel_left (host_part name namespace) s t (sym at_m ∙ h ∙ at_n) in
    sym s_value ∙ ap (value 0) same ∙ t_value
