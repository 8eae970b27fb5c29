-- ===== src/Tasks/CpuLoad.antt =====
-- The load of the CPU (FILETIME2Double and OnTimer of ProcessMangerAlpha/ProcessMangerAlphaDlg.cpp).
-- The floating point numbers are a parameter.
use process_manger_alpha.Base.{
  ℕ, ◌+◌, ◌-◌, ◌*◌, ◌/◌, ◌%◌, ◌^◌, ◌≤◌, ◌<◌, ◌≡◌, refl, ap, ◌∙◌, arith, ◌++◌,
}
use process_manger_alpha.Text.{Text, codes, dword_mod}
use process_manger_alpha.Tasks.StatusBar.{SystemTimes}

-- What is used of `double`: a DWORD as one, the literals 4.294967296e9 and 100.0, the operations, and
-- the text of `%.2lf`.
pub record Floats : Type 1 where
  pub Double : Type 0
  pub of_dword : ℕ → Double
  pub two_to_32 : Double
  pub hundred : Double
  pub add : Double → Double → Double
  pub sub : Double → Double → Double
  pub mul : Double → Double → Double
  pub div : Double → Double → Double
  pub format : Double → Text

-- IEEE 754 of whole numbers: those up to 2 ^ 53 are there, and what comes to one of them is exact.
pub record IsExact (f : Floats) : Type 0 where
  pub whole : ℕ → f.Double
  pub of_dword-whole : (n : ℕ) → n < dword_mod → f.of_dword n ≡ whole n
  pub two_to_32-whole : f.two_to_32 ≡ whole (2 ^ 32)
  pub hundred-whole : f.hundred ≡ whole 100
  pub add-whole : (a b : ℕ) → a + b ≤ 2 ^ 53 → f.add (whole a) (whole b) ≡ whole (a + b)
  pub sub-whole : (a b : ℕ) → b ≤ a → a ≤ 2 ^ 53 → f.sub (whole a) (whole b) ≡ whole (a - b)
  pub mul-whole : (a b : ℕ) → a * b ≤ 2 ^ 53 → f.mul (whole a) (whole b) ≡ whole (a * b)
  pub div-whole : (q b : ℕ) → 0 < b → q ≤ 1 → b ≤ 2 ^ 53 → f.div (whole (q * b)) (whole b) ≡ whole q

module _ (f : Floats) where
  open f use {Double, of_dword, two_to_32, hundred, add, sub, mul, div, format}

  -- FILETIME2Double: a FILETIME is a DWORD of the high half and one of the low half.
  unfoldable pub filetime_to_double : ℕ → Double
  filetime_to_double t =
      add (mul (of_dword (t / dword_mod % dword_mod)) two_to_32) (of_dword (t % dword_mod))

  -- The load between two readings of GetSystemTimes.
  unfoldable pub cpu_load : SystemTimes → SystemTimes → Double
  unfolding filetime_to_double
  cpu_load old new =
      let old_idle = filetime_to_double old.idle_time in
      let new_idle = filetime_to_double new.idle_time in
      let old_kernel = filetime_to_double old.kernel_time in
      let new_kernel = filetime_to_double new.kernel_time in
      let old_user = filetime_to_double old.user_time in
      let new_user = filetime_to_double new.user_time in
      let total = sub (add (sub new_kernel old_kernel) new_user) old_user in
      sub hundred (mul (div (sub new_idle old_idle) total) hundred)

  unfoldable pub cpu_text : SystemTimes → SystemTimes → Text
  unfolding cpu_load
  cpu_text old new = codes "CPU使用率 " ++ format (cpu_load old new) ++ codes "%"

  module _ (exact : IsExact f) where
    open exact use {
      whole, of_dword-whole, two_to_32-whole, hundred-whole, add-whole, sub-whole, mul-whole,
      div-whole,
    }

    filetime_to_double-whole : (t : ℕ) → t ≤ 2 ^ 53 → filetime_to_double t ≡ whole t
    unfolding filetime_to_double
    filetime_to_double-whole t h =
        let high = t / dword_mod % dword_mod in
        let low = t % dword_mod in
        let parts : high * 2 ^ 32 + low ≡ t = omega arith in
        rw
          (
            filetime_to_double,
            of_dword-whole high (omega arith),
            of_dword-whole low (omega arith),
            two_to_32-whole,
            mul-whole high (2 ^ 32) (omega arith),
            add-whole (high * 2 ^ 32) low (omega arith),
          )
          (ap whole parts)

    -- Between two readings of less than 2 ^ 52 that do not go back, in which kernel and user time go
    -- on: the load shown is 100 when no idle time passes, and 0 when all the time that passes is
    -- idle time (`q` is 0 and 1).
    pub cpu_text_lem :
        (q : ℕ) (old new : SystemTimes)
        → q ≤ 1
        → old.idle_time ≤ new.idle_time
        → old.kernel_time ≤ new.kernel_time
        → old.user_time ≤ new.user_time
        → new.idle_time < 2 ^ 52
        → new.kernel_time < 2 ^ 52
        → new.user_time < 2 ^ 52
        → old.kernel_time + old.user_time < new.kernel_time + new.user_time
        → new.idle_time - old.idle_time
          ≡ q * (new.kernel_time + new.user_time - (old.kernel_time + old.user_time))
        → cpu_text old new ≡ codes "CPU使用率 " ++ format (whole (100 - q * 100)) ++ codes "%"
    unfolding cpu_text cpu_load
    cpu_text_lem q old new one idle kernel user small_idle small_kernel small_user some_time share =
        let total = new.kernel_time - old.kernel_time + new.user_time - old.user_time in
        let same : new.idle_time - old.idle_time ≡ q * total =
          share ∙ ap (λ n. q * n) (omega arith) in
        rw
          (
            cpu_text,
            cpu_load,
            filetime_to_double-whole old.idle_time (omega arith),
            filetime_to_double-whole new.idle_time (omega arith),
            filetime_to_double-whole old.kernel_time (omega arith),
            filetime_to_double-whole new.kernel_time (omega arith),
            filetime_to_double-whole old.user_time (omega arith),
            filetime_to_double-whole new.user_time (omega arith),
            sub-whole new.kernel_time old.kernel_time kernel (omega arith),
            add-whole (new.kernel_time - old.kernel_time) new.user_time (omega arith),
            sub-whole (new.kernel_time - old.kernel_time + new.user_time) old.user_time
                (omega arith) (omega arith),
            sub-whole new.idle_time old.idle_time idle (omega arith),
            same,
            div-whole q total (omega arith) one (omega arith),
            hundred-whole,
            mul-whole q 100 (omega arith),
            sub-whole 100 (q * 100) (omega arith) (omega arith),
          )
          refl
