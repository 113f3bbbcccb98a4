-- ===== src/Cpu/Control/Swap.antt =====
-- What `swap` and `copy` do (compyter/cpu.py).
use compyter.Prelude.{ℕ, ◌<◌, ◌≡◌, refl, false}
use compyter.Prelude.Int.{pos}
use compyter.Result.{ok}
use compyter.Exec.{◌>>=◌}
use compyter.Memory.{Bus}
use compyter.Machine.{Machine, put}
use compyter.Register.{has_enabled_intr}
use compyter.Cpu.Access.{general, get_item-general, set-general, quiet-put}
use compyter.Cpu.Control.{swap, copy}

module _ {B : Bus} (r1 r2 : ℕ) (s : Machine B) (lt1 : r1 < general) (lt2 : r2 < general)
    (quiet : has_enabled_intr s ≡ false) where
  swap-number : swap (pos r1) (pos r2) s ≡ (ok tt, put r2 (s.registers r1) (put r1 (pos r2) s))
  unfolding swap ◌>>=◌
  swap-number =
      rw
        (
          get_item-general r1 s lt1,
          set-general r1 (pos r2) s lt1 quiet,
          set-general r2 (s.registers r1) (put r1 (pos r2) s) lt2
              (quiet-put r1 (pos r2) s lt1 quiet),
        )
        refl

  copy-value : copy (pos r1) (pos r2) s ≡ (ok tt, put r1 (s.registers r2) s)
  unfolding copy ◌>>=◌
  copy-value = rw (get_item-general r2 s lt2, set-general r1 (s.registers r2) s lt1 quiet) refl

  -- On general purpose registers, with no interrupt both pending and enabled: `copy` moves the value
  -- of the second register into the first; `swap` moves the value of the first register into the
  -- second, and the number of the second register, not its value, into the first.
  pub swap-copy :
      (swap (pos r1) (pos r2) s ≡ (ok tt, put r2 (s.registers r1) (put r1 (pos r2) s)))
      × (copy (pos r1) (pos r2) s ≡ (ok tt, put r1 (s.registers r2) s))
  swap-copy = (swap-number, copy-value)
