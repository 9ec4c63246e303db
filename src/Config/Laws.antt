-- ===== src/Config/Laws.antt =====
-- What the configuration holds after it has been loaded.
use blahgd.Prelude.{ℕ, ◌≤◌, ◌<◌, Option, none, some, arith, Bytes}
use blahgd.Extern.Alist.{Alist}
use blahgd.Config.{
  Defaults, Threads, per_cpu, threads, Config, config_load_u64, port_of, int_max, threads_of,
  no_list, config_of, config_load,
}

abbrev pub IsThreads : Threads → Type 0
IsThreads per_cpu = Unit
IsThreads (threads n) = (1 ≤ n) × (n ≤ int_max)

threads_of-IsThreads : (n : ℕ) → IsThreads (threads_of n)
threads_of-IsThreads n = ground arith

port_of-lt : (def n : ℕ) → def < 65536 → port_of def n < 65536
port_of-lt def n h = ground arith

-- The port fits 16 bits and the number of threads is -1 or fits a positive int.
abbrev pub IsRunnable : Option Config → Type 0
IsRunnable none = Unit
IsRunnable (some c) = (c.scgi_port < 65536) × IsThreads c.scgi_threads

config_of-IsRunnable :
    (defaults : Defaults) (random : ℕ × ℕ) (lv : Alist)
    → defaults.scgi_port < 65536
    → IsRunnable (some (config_of defaults random lv))
unfolding config_of
config_of-IsRunnable defaults random lv h = (
  port_of-lt defaults.scgi_port (config_load_u64 lv "scgi-port" defaults.scgi_port) h,
  threads_of-IsThreads (config_load_u64 lv "scgi-threads" 0),
)

-- With a default port that fits 16 bits, a configuration that is loaded has a port that fits 16
-- bits and a number of threads that is -1 or lies between 1 and INT_MAX, whatever the file holds.
pub config_load-IsRunnable :
    (defaults : Defaults) (random : ℕ × ℕ) (read_file : Bytes → Option Bytes)
    (parse : Bytes → Option Alist) (fname : Option Bytes)
    → defaults.scgi_port < 65536
    → IsRunnable (config_load defaults random read_file parse fname)
unfolding config_load
config_load-IsRunnable defaults random read_file parse none h =
    config_of-IsRunnable defaults random no_list h
config_load-IsRunnable defaults random read_file parse (some fname) h = go (read_file fname)
  where
    inner :
        (o : Option Alist)
        → IsRunnable (elim o [ none ↦ none | some lv ↦ some (config_of defaults random lv) ])
    inner none = tt
    inner (some lv) = config_of-IsRunnable defaults random lv h

    go :
        (o : Option Bytes)
        → IsRunnable (elim o [
          | none ↦ none
          | some raw ↦ elim (parse raw) [
            | none ↦ none
            | some lv ↦ some (config_of defaults random lv)
          ]
        ])
    go none = tt
    go (some raw) = inner (parse raw)
