-- ===== src/Framebuffer/Fields.antt =====
-- The registers and the pixels hold the values that they are made of.
use linux_kernel_development.Prelude.{
  ℕ, ◌+◌, ◌*◌, ◌/◌, ◌%◌, ◌<◌, ◌≡◌, ◌≢◌, arith, bit_or, shift_left, bit_or-shift_left, bit_or-zero,
  true,
}
use linux_kernel_development.Framebuffer.{Var, encode_565, myfb_check_var}
use linux_kernel_development.Framebuffer.Registers.{
  shl, sync_and_margins, resolution, Controller, myfb_set_par,
}
use linux_kernel_development.Framebuffer.Colors.{pixel, myfb_setcolreg}

shl_16 : (a : ℕ) → a < 65536 → shl a 16 ≡ shift_left a 16
unfolding shl shift_left
shl_16 a small = omega arith

shl_8 : (a : ℕ) → a < 256 → shl a 8 ≡ shift_left a 8
unfolding shl shift_left
shl_8 a small = omega arith

resolution-sum :
    (xres yres : ℕ) → xres < 65536 → yres < 65536 → resolution xres yres ≡ xres * 65536 + yres
unfolding resolution shift_left
resolution-sum xres yres small1 small2 =
    rw (shl_16 xres small1) (omega (arith, bit_or-shift_left 16 xres yres (omega arith)))

-- A sum of two shifted fields is one field, shifted by the smaller distance.
merged :
    (sync before : ℕ)
    → before < 256
    → bit_or (shift_left sync 16) (shift_left before 8) ≡ shift_left (sync * 256 + before) 8
unfolding shift_left
merged sync before small =
    omega (arith, bit_or-shift_left 16 sync (shift_left before 8) (omega arith))

sync_and_margins-sum :
    (sync before after : ℕ)
    → sync < 65536
    → before < 256
    → after < 256
    → sync_and_margins sync before after ≡ sync * 65536 + before * 256 + after
unfolding sync_and_margins shift_left
sync_and_margins-sum sync before after s1 s2 s3 =
    rw (shl_16 sync s1, shl_8 before s2, merged sync before s2)
      (omega (arith, bit_or-shift_left 8 (sync * 256 + before) after (omega arith)))

-- The fields of a mode that fit into the registers.
pub record Fits (var : Var) : Type 0 where
  pub syncs : (var.hsync_len < 65536) × (var.vsync_len < 65536)
  pub sides : (var.left_margin < 256) × (var.right_margin < 256)
  pub ends : (var.upper_margin < 256) × (var.lower_margin < 256)
  pub sizes : (var.xres < 65536) × (var.yres < 65536)

-- The upper 16 bits of a register, the 8 bits below, and the lowest 8.
abbrev pub ThreeFields : ℕ → ℕ → ℕ → ℕ → Type 0
ThreeFields reg sync before after =
    (reg / 65536 ≡ sync) × (reg / 256 % 256 ≡ before) × (reg % 256 ≡ after)

three_fields :
    (sync before after : ℕ)
    → sync < 65536
    → before < 256
    → after < 256
    → ThreeFields (sync_and_margins sync before after) sync before after
three_fields sync before after s1 s2 s3 =
    let sum = sync_and_margins-sum sync before after s1 s2 s3 in
    (omega (arith, sum), omega (arith, sum), omega (arith, sum))

-- If the lengths of a mode's synchronisations and its resolution fit into 16 bits, and its margins
-- into 8, then the registers, read back, hold them all.
pub registers-myfb_set_par :
    (smem_start : ℕ) (var : Var) (c : Controller)
    → Fits var
    → let now = (myfb_set_par smem_start var c).0 in
      ThreeFields now.hsync_reg var.hsync_len var.left_margin var.right_margin
      × ThreeFields now.vsync_reg var.vsync_len var.upper_margin var.lower_margin
      × (now.size_reg / 65536 ≡ var.xres)
      × (now.size_reg % 65536 ≡ var.yres)
unfolding myfb_set_par
registers-myfb_set_par smem_start var c fits =
    let size = resolution-sum var.xres var.yres fits.sizes.0 fits.sizes.1 in
    (
      three_fields var.hsync_len var.left_margin var.right_margin fits.syncs.0 fits.sides.0
          fits.sides.1,
      three_fields var.vsync_len var.upper_margin var.lower_margin fits.syncs.1 fits.ends.0
          fits.ends.1,
      omega (arith, size),
      omega (arith, size),
    )

shl_field : (a k : ℕ) → shift_left a k < 4294967296 → shl a k ≡ shift_left a k
unfolding shl
shl_field a k small = omega arith

merged_565 :
    (red green : ℕ)
    → green < 64
    → bit_or (shift_left red 11) (shift_left green 5) ≡ shift_left (red * 64 + green) 5
unfolding shift_left
merged_565 red green small =
    omega (arith, bit_or-shift_left 11 red (shift_left green 5) (omega arith))

pixel-565 :
    (var : Var) (red green blue : ℕ)
    → var.bits_per_pixel ≡ 16
    → red < 32
    → green < 64
    → blue < 32
    → pixel (myfb_check_var var).0 red green blue 0 ≡ red * 2048 + green * 32 + blue
unfolding pixel myfb_check_var encode_565 shift_left
pixel-565 var red green blue format r g b = rw format (
    rw
      (
        shl_field red 11 (omega arith),
        shl_field green 5 (omega arith),
        shl_field blue 0 (omega arith),
        shl_field 0 0 (omega arith),
        merged_565 red green g,
        bit_or-zero,
      )
      (omega (arith, bit_or-shift_left 5 (red * 64 + green) blue (omega arith))))

-- If a mode has 16 bits for a pixel, then a color that is set in the true color palette after the mode
-- has been checked is a pixel of 16 bits which, taken apart as RGB565, has the red, the green and the
-- blue that were set, provided that they fit into 5, 6 and 5 bits and the transparency is 0. No other
-- color of the palette changes.
pub myfb_setcolreg-keeps_colors :
    (var : Var) (index other red green blue : ℕ) (palette : ℕ → ℕ)
    → var.bits_per_pixel ≡ 16
    → red < 32
    → green < 64
    → blue < 32
    → other ≢ index
    → let now = (myfb_setcolreg true (myfb_check_var var).0 index red green blue 0 palette).0 in
      (now index < 65536)
      × (now index / 2048 ≡ red)
      × (now index / 32 % 64 ≡ green)
      × (now index % 32 ≡ blue)
      × (now other ≡ palette other)
unfolding myfb_setcolreg
myfb_setcolreg-keeps_colors var index other red green blue palette format r g b ne =
    let sum = pixel-565 var red green blue format r g b in ground (arith, sum)
