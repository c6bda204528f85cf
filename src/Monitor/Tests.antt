-- ===== src/Monitor/Tests.antt =====
-- The screen on concrete states.
use os_implement.Prelude.{
  ℕ, ◌+◌, ◌-◌, ◌<◌, ◌≡◌, ◌&&◌, [], ltb, leb, if◌then◌else◌, arith, codes, All, replicate, length,
  length-replicate, get_or,
}
use os_implement.Monitor.{Screen, blank, position, monitor_write}
use os_implement.Monitor.Put.{IsScreen}
use os_implement.Monitor.Write.{IsPrintable, monitor_write_text}

abbrev screen_at : ℕ → ℕ → Screen
screen_at x y = record { cursor_x = x; cursor_y = y; video = replicate 2000 blank; ports = [] }

screen_at-IsScreen : (x y : ℕ) → x < 80 → y < 25 → IsScreen (screen_at x y)
screen_at-IsScreen x y h k = record { column = h; row = k; cells = length-replicate 2000 blank }

hello_IsPrintable : All IsPrintable (codes "OS>")
hello_IsPrintable =
    ((omega arith, omega arith), ((omega arith, omega arith), ((omega arith, omega arith), tt)))

monitor_write_example :
    let s = screen_at 78 3 in
    let text = codes "OS>" in
    IsScreen (monitor_write text s)
    × (position (monitor_write text s) ≡ position s + length text)
    × ((j : ℕ)
        → get_or (monitor_write text s).video j 0 ≡ (
            if leb (position s) j && ltb j (position s + length text)
            then 0x0f00 + get_or text (j - position s) 0
            else get_or s.video j 0))
monitor_write_example =
    monitor_write_text (codes "OS>") (screen_at 78 3)
      (screen_at-IsScreen 78 3 (omega arith) (omega arith)) hello_IsPrintable (omega arith)
