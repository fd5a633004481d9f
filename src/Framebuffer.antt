-- ===== src/Framebuffer.antt =====
-- Framebuffer/fbexample.c, a skeleton of a driver for a frame buffer. Modes are checked and adjusted
-- here and in Registers, which also packs them; Colors packs the colors, and Device is about what the
-- driver takes from the kernel.
use linux_kernel_development.Prelude.{ℕ, ℤ, pos, if◌then◌else◌, ltb, ◌==◌}
pub mod Registers
pub mod Colors
pub mod Device
mod Fields
mod Tests

-- Where a color stands in a pixel: `struct fb_bitfield`.
pub record Bitfield : Type 0 where
  pub offset : ℕ
  pub length : ℕ

-- A mode: the fields of `struct fb_var_screeninfo` that the driver uses.
pub record Var : Type 0 where
  pub xres : ℕ
  pub yres : ℕ
  pub xres_virtual : ℕ
  pub xoffset : ℕ
  pub yoffset : ℕ
  pub bits_per_pixel : ℕ
  pub left_margin : ℕ
  pub right_margin : ℕ
  pub upper_margin : ℕ
  pub lower_margin : ℕ
  pub hsync_len : ℕ
  pub vsync_len : ℕ
  pub red : Bitfield
  pub green : Bitfield
  pub blue : Bitfield
  pub transp : Bitfield

-- A resolution is at least 64.
unfoldable pub round_up : ℕ → ℕ
round_up res = if ltb res 64 then 64 else res

-- The color format RGB565, if a pixel has 16 bits.
unfoldable pub encode_565 : Var → Var
encode_565 var =
    if var.bits_per_pixel == 16
    then record var {
      red = record { offset = 11; length = 5 };
      green = record { offset = 5; length = 6 };
      blue = record { offset = 0; length = 5 };
      transp = record { offset = 0; length = 0 };
    }
    else var

unfoldable pub myfb_check_var : Var → Var × ℤ
myfb_check_var var =
    (encode_565 (record var { xres = round_up var.xres; yres = round_up var.yres }), pos 0)
