-- ===== src/CharDevice/Tests.antt =====
-- The theorems on ReadonlyCharacter/char1.c at concrete inputs, and runs of its definitions.
use linux_kernel_development.Prelude.{
  ℕ, zero, suc, ◌≡◌, refl, List, [], ◌∷◌, pos, negsuc, replicate, take, min, length, drop, einval,
}
use linux_kernel_development.CharDevice.{
  CharDev, buf_len, init_module, device_open, device_release, device_read, device_write, read_loop,
}
use linux_kernel_development.CharDevice.Read.{
  c_string, unread, device_read_lem, reads, reads_message,
}

-- A rendering: as many 97s as the counter says, then 33.
abbrev render_count : ℕ → List ℕ
render_count zero = 33 ∷ []
render_count (suc n) = 97 ∷ render_count n

render_count-c_string : (c : ℕ) → c_string (render_count c) ≡ render_count c
render_count-c_string zero = refl
render_count-c_string (suc n) = rw (render_count-c_string n) refl

abbrev loaded : CharDev
loaded = record {
  major = pos 240;
  device_open_count = pos 0;
  msg = replicate buf_len 0;
  msg_ptr = 0;
  counter = 3;
}

abbrev opened : CharDev
unfolding device_open
opened = (device_open render_count loaded).0

device_read_lem_example :
    let (d', bytes, count) = device_read opened 2 in
    (bytes ≡ take 2 (unread opened))
    × (count ≡ min 2 (length (unread opened)))
    × (unread d' ≡ drop 2 (unread opened))
device_read_lem_example = device_read_lem opened 2

reads_message_example :
    reads (device_open render_count loaded).0 (2 ∷ 1 ∷ 9 ∷ []) ≡ 97 ∷ 97 ∷ 97 ∷ 33 ∷ []
reads_message_example = reads_message render_count loaded (2 ∷ 1 ∷ 9 ∷ []) render_count-c_string

first_read : (device_read opened 2).1 ≡ 97 ∷ 97 ∷ []
unfolding device_read read_loop opened
first_read = refl

failed_registration : (init_module (negsuc 15) loaded).1 ≡ negsuc 15
unfolding init_module
failed_registration = refl

released : (device_release opened).0.device_open_count ≡ pos 0
unfolding device_release opened
released = refl

no_write : device_write 5 ≡ einval
unfolding device_write
no_write = refl
