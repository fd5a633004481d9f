-- ===== src/Framebuffer/Tests.antt =====
-- The theorems on Framebuffer/fbexample.c at a mode, and runs of its definitions.
use linux_kernel_development.Prelude.{
  ◌^◌, none, shift_left, [], ◌/◌, ◌%◌, ◌<◌, ◌≡◌, refl, true, false, some, ◌++◌, ◌+◌, arith, einval,
}
use linux_kernel_development.Kernel.Ledger.{outstanding, coherent_buffer}
use linux_kernel_development.Framebuffer.{Bitfield, Var, round_up, encode_565, myfb_check_var}
use linux_kernel_development.Framebuffer.Registers.{
  lcd_controller_base, Controller, myfb_set_par, shl, sync_and_margins, adjusted_fb_start,
}
use linux_kernel_development.Framebuffer.Colors.{myfb_setcolreg, myfb_blank, normal, unblank}
use linux_kernel_development.Framebuffer.Device.{
  ProbeAnswers, got, myfb_probe, myfb_remove, region_length, myfb_ioctl,
}
use linux_kernel_development.Framebuffer.Fields.{
  ThreeFields, registers-myfb_set_par, myfb_setcolreg-keeps_colors,
}

abbrev no_bits : Bitfield
no_bits = record { offset = 0; length = 0 }

abbrev mode : Var
mode = record {
  xres = 640;
  yres = 480;
  xres_virtual = 640;
  xoffset = 0;
  yoffset = 2;
  bits_per_pixel = 16;
  left_margin = 48;
  right_margin = 16;
  upper_margin = 33;
  lower_margin = 10;
  hsync_len = 96;
  vsync_len = 2;
  red = no_bits;
  green = no_bits;
  blue = no_bits;
  transp = no_bits;
}

abbrev off : Controller
off = record { size_reg = 0; hsync_reg = 0; vsync_reg = 0; dma_reg = 7; raw_write = (0, 0) }

registers-myfb_set_par_example :
    let now = (myfb_set_par 4096 mode off).0 in
    ThreeFields now.hsync_reg 96 48 16
    × ThreeFields now.vsync_reg 2 33 10
    × (now.size_reg / 65536 ≡ 640)
    × (now.size_reg % 65536 ≡ 480)
registers-myfb_set_par_example = registers-myfb_set_par 4096 mode off (record {
  syncs = (omega arith, omega arith);
  sides = (omega arith, omega arith);
  ends = (omega arith, omega arith);
  sizes = (omega arith, omega arith);
})

myfb_setcolreg-keeps_colors_example :
    let now = (myfb_setcolreg true (myfb_check_var mode).0 3 31 40 5 0 (λ _. 9)).0 in
    (now 3 < 65536) × (now 3 / 2048 ≡ 31) × (now 3 / 32 % 64 ≡ 40) × (now 3 % 32 ≡ 5) × (now 4 ≡ 9)
myfb_setcolreg-keeps_colors_example =
    myfb_setcolreg-keeps_colors mode 3 4 31 40 5 (λ _. 9) refl (omega arith) (omega arith)
      (omega arith) (omega arith)

-- A margin of 256 spills into the one next to it.
wide_margin : sync_and_margins 0 0 256 ≡ sync_and_margins 0 1 0
unfolding sync_and_margins shl shift_left
wide_margin = refl

-- The start of the area goes to the address that DMA_REG holds, not into DMA_REG.
dma_untouched :
    ((myfb_set_par 4096 mode off).0.dma_reg ≡ 7)
    × ((myfb_set_par 4096 mode off).0.raw_write ≡ (7, 6656))
unfolding myfb_set_par adjusted_fb_start
dma_untouched = (refl, refl)

small_mode :
    ((myfb_check_var (record mode { xres = 32 })).0.xres ≡ 64)
    × ((myfb_check_var mode).0.red.offset ≡ 11)
unfolding myfb_check_var encode_565 round_up
small_mode = (refl, refl)

blanked : (myfb_blank normal).0 ≡ some false
unfolding myfb_blank
blanked = refl

unblanked : (myfb_blank unblank).0 ≡ some true
unfolding myfb_blank
unblanked = refl

unknown_ioctl : myfb_ioctl false ≡ einval
unfolding myfb_ioctl
unknown_ioctl = refl

abbrev granted : ProbeAnswers
granted = record {
  framebuffer_ok = true;
  region_ok = true;
  cmap_ok = true;
  dma_ok = true;
  register_ok = true;
}

-- The memory of the frame buffer is never given back.
memory_stays :
    outstanding coherent_buffer 0
      ((elim (myfb_probe granted 4096 mode off) [ none ↦ [] | some p ↦ p.0 ]) ++ myfb_remove.0)
    ≡ some 1
unfolding myfb_probe myfb_remove got outstanding
memory_stays = refl

-- The end of the resource is below its start, so that the length wraps around.
negative_length : region_length + lcd_controller_base ≡ 2 ^ 64 + 33
unfolding region_length
negative_length = refl
