-- ===== src/Framebuffer/Registers.antt =====
-- The registers of the LCD controller, as `myfb_set_par` of Framebuffer/fbexample.c writes them.
use linux_kernel_development.Prelude.{ℕ, ◌+◌, ◌*◌, ◌/◌, ◌%◌, ◌^◌, ℤ, pos, bit_or, shift_left}
use linux_kernel_development.Framebuffer.{Var}

-- The values are unsigned integers of 32 bits, but for addresses, of 64.
abbrev pub u32 : ℕ → ℕ
u32 n = n % 2 ^ 32

-- `a << k` in 32 bits.
unfoldable pub shl : ℕ → ℕ → ℕ
shl a k = u32 (shift_left a k)

-- Where the registers stand.
abbrev pub lcd_controller_base : ℕ
lcd_controller_base = 0x01000D00

abbrev pub lcd_controller_size : ℕ
lcd_controller_size = 32

-- The registers that the function uses, with the last write that went to the address which the register
-- DMA_REG holds.
pub record Controller : Type 0 where
  pub size_reg : ℕ
  pub hsync_reg : ℕ
  pub vsync_reg : ℕ
  pub dma_reg : ℕ
  pub raw_write : ℕ × ℕ

-- A duration of a synchronisation above two margins of 8 bits.
unfoldable pub sync_and_margins : ℕ → ℕ → ℕ → ℕ
sync_and_margins sync before after = bit_or (bit_or (shl sync 16) (shl before 8)) after

unfoldable pub resolution : ℕ → ℕ → ℕ
resolution xres yres = bit_or (shl xres 16) yres

-- The start of the memory, moved to the start of the area that is shown.
unfoldable pub adjusted_fb_start : ℕ → Var → ℕ
adjusted_fb_start smem_start var =
    (smem_start + u32 (u32 (var.yoffset * var.xres_virtual + var.xoffset) * var.bits_per_pixel) / 8)
    % 2 ^ 64

unfoldable pub line_length : Var → ℕ
line_length var = u32 (var.xres_virtual * var.bits_per_pixel) / 8

-- The registers after the call, and what becomes of `fix->line_length`. Whatever the visual was, it is
-- true color afterwards.
unfoldable pub myfb_set_par : ℕ → Var → Controller → Controller × ℕ × ℤ
myfb_set_par smem_start var c = (
  record c {
    hsync_reg = sync_and_margins var.hsync_len var.left_margin var.right_margin;
    vsync_reg = sync_and_margins var.vsync_len var.upper_margin var.lower_margin;
    size_reg = resolution var.xres var.yres;
    raw_write = (c.dma_reg, adjusted_fb_start smem_start var);
  },
  line_length var,
  pos 0,
)
