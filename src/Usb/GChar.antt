-- ===== src/Usb/GChar.antt =====
-- The USB gadget of 23.USB/driver/g_char.c: a character device whose writes go to the host and whose
-- reads come from it, through two endpoints with one request each.
pub mod Alt
pub mod Transfer
pub mod Setup
pub mod Strings
pub mod Readers
pub mod Descriptors
pub mod Requests
mod Tests
use linux_driver_kb.Prelude.{
  ℕ, zero, ◌+◌, ◌-◌, Bool, true, false, not, Option, none, some, List, [], ◌∷◌, ltb, ◌==◌, take,
  length, min, replicate, if◌then◌else◌,
}
use linux_driver_kb.Prelude.Int.{ℤ, pos, negsuc, is_neg}
use linux_driver_kb.Kernel.Errno.{enodev, efault, erestartsys}
use linux_driver_kb.Kernel.User.{UserCopy}

abbrev pub buflen : ℕ
buflen = 4096

-- driver_data of an endpoint: null, the composite device that claimed it, or the function's data.
pub data Owner : Type 0 where
  nobody composite function : Owner

pub record Ep : Type 0 where
  pub owner : Owner
  pub enabled : Bool

-- A pointer to a request.
pub data Req : Type 0 where
  null valid freed : Req

-- The function's data, and how many requests are allocated.
pub record Priv : Type 0 where
  pub in_ep : Ep
  pub out_ep : Ep
  pub in_req : Req
  pub out_req : Req
  pub live : ℕ

-- How the calls of enable_g_char end: config_ep_by_speed and usb_ep_enable of the two endpoints, and
-- whether alloc_ep_req finds memory, for out_req and in_req.
pub record Answers : Type 0 where
  pub config_in : ℤ
  pub enable_in : ℤ
  pub config_out : ℤ
  pub enable_out : ℤ
  pub alloc_out : Bool
  pub alloc_in : Bool

abbrev pub is_zero : ℤ → Bool
is_zero (pos n) = n == 0
is_zero (negsuc n) = false

abbrev pub is_owned : Owner → Bool
is_owned nobody = false
is_owned _ = true

unfoldable pub disable_ep : Ep → Ep
disable_ep ep = if is_owned ep.owner then record { owner = nobody; enabled = false } else ep

unfoldable pub disable_g_char : Priv → Priv
unfolding disable_ep
disable_g_char s = record s { in_ep = disable_ep s.in_ep; out_ep = disable_ep s.out_ep }

unfoldable pub enable_endpoint : ℤ → ℤ → Ep → ℤ × Ep
enable_endpoint config enable ep =
    if not (is_zero config)
    then (config, ep)
    else if is_neg enable
    then (enable, ep)
    else (enable, record { owner = function; enabled = true })

-- usb_ep_disable leaves driver_data.
abbrev pub usb_ep_disable : Ep → Ep
usb_ep_disable ep = record ep { enabled = false }

-- The labels of enable_g_char, each of which falls through to the next.
unfoldable pub err_enable_out : ℤ → Priv → ℤ × Priv
err_enable_out ret s = (ret, record s { in_ep = usb_ep_disable s.in_ep })

unfoldable pub err_alloc_in : ℤ → Priv → ℤ × Priv
unfolding err_enable_out
err_alloc_in ret s = err_enable_out ret (record s { out_ep = usb_ep_disable s.out_ep })

unfoldable pub err_alloc_out : ℤ → Priv → ℤ × Priv
unfolding err_alloc_in
err_alloc_out ret s = err_alloc_in ret (record s { out_req = freed; live = s.live - 1 })

-- enable_g_char with the results of enable_endpoint for the two endpoints.
unfoldable pub enable_rest : Answers → ℤ × Ep → ℤ × Ep → Priv → ℤ × Priv
unfolding err_enable_out err_alloc_in err_alloc_out
enable_rest a (ret_in, in_ep) (ret, out_ep) s =
    let one = record s { in_ep = in_ep } in
    let two = record one { out_ep = out_ep } in
    let three = record two { out_req = valid; live = s.live + 1 } in
    if is_neg ret_in
    then (ret_in, one)
    else if is_neg ret
    then err_enable_out ret two
    else if not a.alloc_out
    then err_alloc_in ret (record two { out_req = null })
    else if not a.alloc_in
    then err_alloc_out ret (record three { in_req = null })
    else (ret, record three { in_req = valid; live = s.live + 2 })

unfoldable pub enable_g_char : Answers → Priv → ℤ × Priv
unfolding enable_endpoint enable_rest
enable_g_char a s =
    enable_rest a (enable_endpoint a.config_in a.enable_in s.in_ep)
      (enable_endpoint a.config_out a.enable_out s.out_ep) s

unfoldable pub g_char_f_set_alt : Answers → Priv → ℤ × Priv
unfolding disable_g_char enable_g_char
g_char_f_set_alt a s = enable_g_char a (if is_owned s.in_ep.owner then disable_g_char s else s)

unfoldable pub g_char_f_disable : Priv → Priv
unfolding disable_g_char
g_char_f_disable s = disable_g_char s

-- g_char_f_bind: the interface's number and whether each endpoint was found.
unfoldable pub g_char_f_bind : ℤ → Bool → Bool → Priv → ℤ × Priv
g_char_f_bind id found_in found_out s =
    let claimed : Ep = record { owner = composite; enabled = false } in
    if is_neg id
    then (id, s)
    else if not found_in
    then (enodev, s)
    else if not found_out
    then (enodev, record s { in_ep = claimed })
    else (pos 0, record s { in_ep = claimed; out_ep = claimed })

-- How the wait for a transfer ends: a signal, or g_char_complete with the bytes of the transfer.
pub data Wait : Type 0 where
  signal : Wait
  complete : List ℕ → Wait

-- g_char_read: what usb_ep_queue returns and how the wait ends; the result and what reached the user.
unfoldable pub g_char_read : UserCopy → ℤ → Wait → ℕ → ℤ × List ℕ
g_char_read u queued signal count = (if is_zero queued then erestartsys else queued, [])
g_char_read u queued (complete packet) count =
    let n = if ltb count (length packet) then count else length packet in
    let (left, reached) = u.to_user (take n packet) in
    if not (is_zero queued)
    then (queued, [])
    else if left == 0
    then (pos n, reached)
    else (efault, reached)

-- The length of a request for `count` bytes.
abbrev pub clipped : ℕ → ℕ
clipped count = if ltb count buflen then count else buflen

-- g_char_write over the request's buffer: the result, the buffer, and the packet that was queued.
unfoldable pub g_char_write :
    UserCopy → ℤ → Wait → List ℕ → List ℕ → ℕ → ℤ × List ℕ × Option (List ℕ)
g_char_write u queued wait mem buf count =
    let n = clipped count in
    let (left, mem') = u.from_user mem 0 buf n in
    let ret : ℤ = elim wait [ signal ↦ erestartsys | complete bytes ↦ pos (length bytes) ] in
    if not (left == 0)
    then (efault, mem', none)
    else if not (is_zero queued)
    then (queued, mem', none)
    else (ret, mem', some (take n mem'))
