-- ===== src/Datapath/Words.antt =====
-- pkg/datapath/migration.go: the control word is one u32.
use Prim.Native.Nat.{bit_and, bit_or}
use minuteman.Base.{ℕ, ◌+◌, ◌*◌, ◌/◌, ◌%◌, ◌^◌, ◌<◌, ◌≡◌, ap, ◌∙◌, arith}
use minuteman.Base.Bits.{bit_or_comm, bit_or-shift, bit_and-mask}
use minuteman.Datapath.{Ctrl, pack, unpack}

-- Each field fits 8 bits.
pub record IsCtrl (c : Ctrl) : Type 0 where
  pub active_fits : c.active_slot < 256
  pub old_fits : c.old_slot < 256
  pub state_fits : c.state < 256
  pub epoch_fits : c.epoch < 256

pub low_byte : (v : ℕ) → bit_and v 0xff ≡ v % 256
low_byte v = bit_and-mask 8 v

-- `a | b << h` at an `a` that fits.
or_above : (h a b : ℕ) → a < 2 ^ h → bit_or a (b * 2 ^ h) ≡ a + b * 2 ^ h
or_above h a b k = bit_or_comm a (b * 2 ^ h) ∙ omega (arith, bit_or-shift h b a k)

kept : (v : ℕ) → v < 256 → bit_and v 0xff ≡ v
kept v h = omega (arith, low_byte v)

pub pack_lem :
    (c : Ctrl)
    → IsCtrl c
    → pack c ≡ c.active_slot + c.old_slot * 2 ^ 8 + c.state * 2 ^ 16 + c.epoch * 2 ^ 24
unfolding pack
pack_lem c v =
    rw
      (
        kept c.active_slot v.active_fits,
        kept c.old_slot v.old_fits,
        kept c.state v.state_fits,
        kept c.epoch v.epoch_fits,
      )
      (ap (λ t. bit_or (bit_or t (c.state * 2 ^ 16)) (c.epoch * 2 ^ 24))
          (or_above 8 c.active_slot c.old_slot (omega (arith, v.active_fits)))
        ∙ ap (λ t. bit_or t (c.epoch * 2 ^ 24))
            (or_above 16 (c.active_slot + c.old_slot * 2 ^ 8) c.state
              (omega (arith, v.active_fits, v.old_fits)))
        ∙ or_above 24 (c.active_slot + c.old_slot * 2 ^ 8 + c.state * 2 ^ 16) c.epoch
            (omega (arith, v.active_fits, v.old_fits, v.state_fits)))

Ctrl-ext :
    {c d : Ctrl}
    → c.active_slot ≡ d.active_slot
    → c.old_slot ≡ d.old_slot
    → c.state ≡ d.state
    → c.epoch ≡ d.epoch
    → c ≡ d
Ctrl-ext a b e f = cc

-- Four fields of 8 bits survive the trip through the control word, which is a u32.
pub unpack-pack : (c : Ctrl) → IsCtrl c → (unpack (pack c) ≡ c) × (pack c < 2 ^ 32)
unfolding unpack
unpack-pack c v =
    let word = pack_lem c v in
    (
      Ctrl-ext
          (low_byte (pack c)
            ∙ omega (arith, word, v.active_fits, v.old_fits, v.state_fits, v.epoch_fits))
          (low_byte (pack c / 2 ^ 8)
            ∙ omega (arith, word, v.active_fits, v.old_fits, v.state_fits, v.epoch_fits))
          (low_byte (pack c / 2 ^ 16)
            ∙ omega (arith, word, v.active_fits, v.old_fits, v.state_fits, v.epoch_fits))
          (low_byte (pack c / 2 ^ 24)
            ∙ omega (arith, word, v.active_fits, v.old_fits, v.state_fits, v.epoch_fits)),
      omega (arith, word, v.active_fits, v.old_fits, v.state_fits, v.epoch_fits),
    )

pub unpack-IsCtrl : (v : ℕ) → IsCtrl (unpack v)
unfolding unpack
unpack-IsCtrl v = record {
  active_fits = omega (arith, low_byte v);
  old_fits = omega (arith, low_byte (v / 2 ^ 8));
  state_fits = omega (arith, low_byte (v / 2 ^ 16));
  epoch_fits = omega (arith, low_byte (v / 2 ^ 24));
}
