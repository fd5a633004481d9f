-- ===== src/Framebuffer/Device.antt =====
-- The ioctl of Framebuffer/fbexample.c, and what its probe and its module take from the kernel.
use linux_kernel_development.Prelude.{
  ℕ, ◌+◌, ◌-◌, ◌%◌, ◌^◌, ℤ, pos, Bool, if◌then◌else◌, Option, some, none, [], ◌∷◌, ◌++◌, einval,
  not, is_neg,
}
use linux_kernel_development.Kernel.Ledger.{
  Resource, taken, given, Events, framebuffer, mem_region, cmap, coherent_buffer,
  registered_framebuffer, platform_device, platform_driver,
}
use linux_kernel_development.Framebuffer.{Var}
use linux_kernel_development.Framebuffer.Registers.{
  Controller, myfb_set_par, lcd_controller_base, lcd_controller_size,
}

-- The level is copied from the user, and goes nowhere.
unfoldable pub myfb_ioctl : Bool → ℤ
myfb_ioctl is_set_brightness = if is_set_brightness then pos 0 else einval

-- The length of the memory that is asked for, from the start and the end that the resource has, in 64
-- bits. The end is the length of the controller's registers.
unfoldable pub region_length : ℕ
region_length = (lcd_controller_size + 2 ^ 64 - lcd_controller_base + 1) % 2 ^ 64

-- Which of the calls of the probe succeed.
pub record ProbeAnswers : Type 0 where
  pub framebuffer_ok : Bool
  pub region_ok : Bool
  pub cmap_ok : Bool
  pub dma_ok : Bool
  pub register_ok : Bool

unfoldable pub got : Bool → Resource → Events
got ok r = if ok then taken r ∷ [] else []

-- What the probe takes, the registers after it and what it returns, for a mode and a start of the memory
-- that are filled in outside this file; `none` if it goes on with a NULL pointer for the device.
unfoldable pub myfb_probe : ProbeAnswers → ℕ → Var → Controller → Option (Events × Controller × ℤ)
myfb_probe a smem_start var c =
    if a.framebuffer_ok
    then some (
      taken framebuffer ∷ got a.region_ok mem_region
          ++ got a.cmap_ok cmap
          ++ got a.dma_ok coherent_buffer
          ++ got a.register_ok registered_framebuffer,
      (myfb_set_par smem_start var c).0,
      pos 0,
    )
    else none

unfoldable pub myfb_remove : Events × ℤ
myfb_remove =
    (given registered_framebuffer ∷ given cmap ∷ given framebuffer ∷ given mem_region ∷ [], pos 0)

-- What the module takes, and what its registration returns.
unfoldable pub myfb_init : Bool → ℤ → Events × ℤ
myfb_init device_ok driver_rv =
    (got device_ok platform_device ++ got (not (is_neg driver_rv)) platform_driver, driver_rv)

unfoldable pub myfb_exit : Events
myfb_exit = given platform_driver ∷ given platform_device ∷ []
