-- ===== src/Addresses/Words.antt =====
-- Addresses as numbers and as bytes: ipToInt and intToIP of src/joebot/sshconnect/cfg.go.
use joebot.Prelude.{ℕ, ◌+◌, ◌*◌, ◌<◌, ◌≡◌, sym, ap, ◌∙◌, some, [], ◌∷◌, arith, some-eq, All}
use mathlib.Core.Path.{ap₂}
use joebot.Addresses.{ip_to_int, int_to_ip}

-- A number below 2 ^ 32 is read back from the four bytes that are written for it.
pub ip_to_int-int_to_ip : (n : ℕ) → n < 4294967296 → ip_to_int (int_to_ip n) ≡ some n
unfolding ip_to_int int_to_ip
ip_to_int-int_to_ip n h = ap some (omega arith)

digits_back :
    (a b c d : ℕ)
    → a < 256
    → b < 256
    → c < 256
    → d < 256
    → int_to_ip (((a * 256 + b) * 256 + c) * 256 + d) ≡ a ∷ (b ∷ (c ∷ (d ∷ [])))
unfolding int_to_ip
digits_back a b c d ha hb hc hd =
    ap₂ (λ x t. x ∷ t) (omega arith)
      (ap₂ (λ x t. x ∷ t) (omega arith)
        (ap₂ (λ x t. x ∷ t) (omega arith) (ap (λ x. x ∷ []) (omega arith))))

-- Four bytes are written again for the number that they stand for.
pub int_to_ip-ip_to_int :
    (a b c d n : ℕ)
    → All (λ x. x < 256) (a ∷ (b ∷ (c ∷ (d ∷ []))))
    → ip_to_int (a ∷ (b ∷ (c ∷ (d ∷ [])))) ≡ some n
    → int_to_ip n ≡ a ∷ (b ∷ (c ∷ (d ∷ [])))
unfolding ip_to_int
int_to_ip-ip_to_int a b c d n (ha, (hb, (hc, (hd, end)))) e =
    ap int_to_ip (sym (some-eq e)) ∙ digits_back a b c d ha hb hc hd
