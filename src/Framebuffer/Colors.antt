-- ===== src/Framebuffer/Colors.antt =====
-- Colors, the blanking and the ioctl of Framebuffer/fbexample.c.
use linux_kernel_development.Prelude.{
  true, ◌&&◌, false, ℕ, ℤ, pos, Bool, if◌then◌else◌, ◌==◌, bit_or, Option, some, none,
}
use linux_kernel_development.Framebuffer.{Var}
use linux_kernel_development.Framebuffer.Registers.{shl}

-- The colors of a pixel, side by side.
unfoldable pub pixel : Var → ℕ → ℕ → ℕ → ℕ → ℕ
pixel var red green blue transp =
    bit_or
      (bit_or (bit_or (shl red var.red.offset) (shl green var.green.offset))
        (shl blue var.blue.offset))
      (shl transp var.transp.offset)

-- The palette, written at `color_index` if the visual is true color.
unfoldable pub myfb_setcolreg : Bool → Var → ℕ → ℕ → ℕ → ℕ → ℕ → (ℕ → ℕ) → (ℕ → ℕ) × ℤ
myfb_setcolreg truecolor var color_index red green blue transp pseudo_palette = (
  λ i.
      if truecolor && (i == color_index) then pixel var red green blue transp else pseudo_palette i,
  pos 0,
)

-- `FB_BLANK_UNBLANK` and the other modes.
pub data BlankMode : Type 0 where
  powerdown vsync_suspend hsync_suspend normal unblank another : BlankMode

-- Whether the call enables (`some true`) or disables (`some false`) the controller, and what it returns.
unfoldable pub myfb_blank : BlankMode → Option Bool × ℤ
myfb_blank powerdown = (some false, pos 0)
myfb_blank vsync_suspend = (some false, pos 0)
myfb_blank hsync_suspend = (some false, pos 0)
myfb_blank normal = (some false, pos 0)
myfb_blank unblank = (some true, pos 0)
myfb_blank another = (none, pos 0)
