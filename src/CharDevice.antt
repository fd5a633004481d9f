-- ===== src/CharDevice.antt =====
-- ReadonlyCharacter/char1.c: a character device whose message is rendered anew by each open.
use linux_kernel_development.Prelude.{
  ℕ, ◌+◌, ◌%◌, ◌^◌, ◌==◌, Bool, true, false, not, List, [], ◌∷◌, ◌++◌, replicate, length, drop,
  get_or, take, if◌then◌else◌, ℤ, pos, negsuc, ◌+ℤ◌, einval, is_neg, zero, suc, ◌&&◌,
}
use linux_kernel_development.Kernel.Ledger.{Events, given, major_number}
pub mod Read
mod Tests

abbrev pub buf_len : ℕ
buf_len = 80

-- The variables at file scope: `msg_Ptr` is an index into `msg`. `counter` is the static variable of
-- `device_open`. The ints are integers without overflow.
pub record CharDev : Type 0 where
  pub major : ℤ
  pub device_open_count : ℤ
  pub msg : List ℕ
  pub msg_ptr : ℕ
  pub counter : ℕ

-- `register_chrdev` answers with the major number, or with an error.
unfoldable pub init_module : ℤ → CharDev → CharDev × ℤ
init_module answer d =
    let registered = record d { major = answer } in
    if is_neg answer then (registered, answer) else (registered, pos 0)

-- What the exit function gives back.
unfoldable pub cleanup_module : Events
cleanup_module = given major_number ∷ []

-- `sprintf` writes a rendering and its terminator over the start of `msg`. `render` gives the
-- characters for a value of the counter, which fit in `msg` for every `int`.
unfoldable pub device_open : (ℕ → List ℕ) → CharDev → CharDev × ℤ
device_open render d =
    let text = render d.counter ++ (0 ∷ []) in
    (
      record d {
        device_open_count = d.device_open_count +ℤ pos 1;
        msg = text ++ drop (length text) d.msg;
        msg_ptr = 0;
        counter = d.counter + 1;
      },
      pos 0,
    )

unfoldable pub device_release : CharDev → CharDev × ℤ
device_release d = (record d { device_open_count = d.device_open_count +ℤ negsuc 0 }, pos 0)

-- What is read through a pointer: past the end of `msg` there is nothing to read.
abbrev pub char_at : CharDev → ℕ → ℕ
char_at d i = get_or d.msg i 0

-- The loop: the bytes that it hands to `put_user`, in order, and the pointer that it leaves.
unfoldable pub read_loop : CharDev → ℕ → ℕ → List ℕ × ℕ
read_loop d zero ptr = ([], ptr)
read_loop d (suc length) ptr =
    let rest = read_loop d length (ptr + 1) in
    if char_at d ptr == 0 then ([], ptr) else (char_at d ptr ∷ rest.0, rest.1)

-- The device, the bytes put into the buffer, and `bytes_read`. `put_user`'s result is not looked at.
unfoldable pub device_read : CharDev → ℕ → CharDev × List ℕ × ℕ
device_read d len =
    let (bytes, ptr) = read_loop d len d.msg_ptr in
    if char_at d d.msg_ptr == 0
    then (d, [], 0)
    else (record d { msg_ptr = ptr }, bytes, length bytes)

unfoldable pub device_write : ℕ → ℤ
device_write len = einval
