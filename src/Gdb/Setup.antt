-- ===== src/Gdb/Setup.antt =====
-- The devices of drivers/gdb/gdb_remote.c: enumeration, `gdb_remote_alloc_dev`, `gdb_remote_free_dev`,
-- `gdb_remote_init` and `gdb_remote_exit`, with the tables of drivers/gdb/gdb_remote_openocd.c and
-- drivers/gdb/gdb_remote_qemu.c.
pub mod Life
pub mod Socket
use baremetal_crt_host.Common.{
  ℕ, Bool, true, false, not, Option, none, some, List, [], ◌∷◌, Bytes, ◌==◌, codes,
}
use baremetal_crt_host.Cl.{Status, is_success}
use baremetal_crt_host.Runtime.{Ptr, null, DevOps}
use baremetal_crt_host.Runtime.Monad.{M, pure, test◌then◌else◌, on_option, ◌>>=◌, calloc_struct}
use baremetal_crt_host.Setup.{Privs, DevTable, no_devs, alloc_dev, free_dev, init_loop, exit_devs}

-- struct gdb_remote_conf
pub record RemoteConf : Type 0 where
  pub node : Bytes
  pub service : Bytes
  pub ops : DevOps

-- struct gdb_remote_enum_info
pub record RemoteInfo : Type 0 where
  pub node : Bytes
  pub service : Bytes

-- struct gdb_remote_priv. NULL texts of `info` are empty; the descriptor is `none` for -1.
pub record RemoteData : Type 0 where
  pub conf : Option RemoteConf
  pub info : RemoteInfo
  pub fd_sock : Option ℕ

-- New data, which `calloc` has filled with zeros
abbrev pub blank_remote : RemoteData
blank_remote = record { conf = none; info = record { node = []; service = [] }; fd_sock = some 0 }

-- The status, and `*inf` where it is stored; the array has always one element.
unfoldable pub gdb_remote_enum : Option RemoteConf → M (Status × Option (List RemoteInfo))
unfolding calloc_struct
gdb_remote_enum none = pure (Status.invalid_value, none)
gdb_remote_enum (some conf) = do
  reminf ← calloc_struct
  test reminf == null
      then pure (Status.out_of_host_memory, none)
      else pure (Status.success, some (record { node = conf.node; service = conf.service } ∷ []))

unfoldable pub gdb_remote_alloc_dev :
    Privs RemoteData → Ptr → Option Ptr → M (Status × Option Ptr × Privs RemoteData)
unfolding alloc_dev
gdb_remote_alloc_dev = alloc_dev blank_remote

unfoldable pub gdb_remote_free_dev : Privs RemoteData → Ptr → M (Status × Privs RemoteData)
unfolding free_dev
gdb_remote_free_dev = free_dev true

-- `none` for a NULL among the two pointers of the table
unfoldable pub gdb_remote_exit :
    (fuel : ℕ)
    → Privs RemoteData
    → Option DevTable
    → M (Status × Privs RemoteData × Option DevTable)
unfolding exit_devs
gdb_remote_exit = exit_devs true

-- What `gdb_remote_init` writes into the data of a device
abbrev pub filled_remote : RemoteConf → RemoteInfo → RemoteData
filled_remote conf inf = record blank_remote { conf = some conf; info = inf }

-- Where the array of devices cannot be allocated, the function returns with `*devs_num` set. `probe`
-- is what `conf->ops->probe` does with the data of a device.
unfoldable pub gdb_remote_init :
    (probe : RemoteData → Option RemoteData)
    → (fuel : ℕ) → (platform : Ptr) → Option RemoteConf
    → Privs RemoteData
    → Option DevTable
    → M (Status × Privs RemoteData × Option DevTable)
unfolding gdb_remote_enum init_loop gdb_remote_exit calloc_struct
gdb_remote_init probe fuel platform none privs table = pure (Status.invalid_value, privs, table)
gdb_remote_init probe fuel platform (some conf) privs none =
    pure (Status.invalid_value, privs, none)
gdb_remote_init probe fuel platform (some conf) privs (some table) = do
  (r, inf) ← gdb_remote_enum (some conf)
  test not (is_success r)
      then pure (r, privs, some no_devs)
      else on_option inf (pure (r, privs, some no_devs)) λ infs. do
        array ← calloc_struct
        test array == null
            then pure
                (Status.out_of_host_memory, privs, some (record { devs = none; devs_num = 1 }))
            else do
              (r', devs, privs') ←
                  init_loop blank_remote (filled_remote conf) probe conf.ops fuel platform privs
                    infs
              test is_success r'
                  then pure
                      (Status.success, privs', some (record { devs = some devs; devs_num = 1 }))
                  else do
                    (_, privs3, table') ← gdb_remote_exit fuel privs' (some no_devs)
                    pure (r', privs3, table')

abbrev all_ops : DevOps
all_ops = record {
  probe = true;
  remove = true;
  reset = true;
  run = true;
  stop = true;
  read_mem = true;
  write_mem = true;
}

abbrev pub gdb_remote_openocd_ops : DevOps
gdb_remote_openocd_ops = all_ops

abbrev pub gdb_remote_qemu_ops : DevOps
gdb_remote_qemu_ops = all_ops

abbrev pub gdb_remote_openocd_conf : RemoteConf
gdb_remote_openocd_conf = record {
  node = codes "localhost";
  service = codes "3333";
  ops = gdb_remote_openocd_ops;
}

abbrev pub gdb_remote_qemu_conf : RemoteConf
gdb_remote_qemu_conf = record {
  node = codes "localhost";
  service = codes "1234";
  ops = gdb_remote_qemu_ops;
}

abbrev text_or : Bytes → Option Bytes → Bytes
text_or old none = old
text_or old (some e) = e

-- The configuration after the two calls of `getenv`, whose answers are `host` and `port`
abbrev pub with_env : (host port : Option Bytes) → RemoteConf → RemoteConf
with_env host port conf = record conf {
  node = text_or conf.node host;
  service = text_or conf.service port;
}

-- `conf` is the file's variable with the configuration, and `table` stands for `in_devs` and
-- `in_devs_num`; the first result is the new configuration.
unfoldable pub gdb_remote_openocd_init :
    (probe : RemoteData → Option RemoteData)
    → (host port : Option Bytes) → (fuel : ℕ) → (platform : Ptr) → RemoteConf
    → Privs RemoteData
    → DevTable
    → M (RemoteConf × (Status × Privs RemoteData × Option DevTable))
unfolding gdb_remote_init
gdb_remote_openocd_init probe host port fuel platform conf privs table = do
  let conf' : RemoteConf = with_env host port conf
  result ← gdb_remote_init probe fuel platform (some conf') privs (some table)
  pure (conf', result)

unfoldable pub gdb_remote_qemu_init :
    (probe : RemoteData → Option RemoteData)
    → (host port : Option Bytes) → (fuel : ℕ) → (platform : Ptr) → RemoteConf
    → Privs RemoteData
    → DevTable
    → M (RemoteConf × (Status × Privs RemoteData × Option DevTable))
unfolding gdb_remote_init
gdb_remote_qemu_init probe host port fuel platform conf privs table = do
  let conf' : RemoteConf = with_env host port conf
  result ← gdb_remote_init probe fuel platform (some conf') privs (some table)
  pure (conf', result)

unfoldable pub gdb_remote_openocd_exit :
    (fuel : ℕ) → Privs RemoteData → DevTable → M (Status × Privs RemoteData × Option DevTable)
unfolding gdb_remote_exit
gdb_remote_openocd_exit fuel privs table = gdb_remote_exit fuel privs (some table)

unfoldable pub gdb_remote_qemu_exit :
    (fuel : ℕ) → Privs RemoteData → DevTable → M (Status × Privs RemoteData × Option DevTable)
unfolding gdb_remote_exit
gdb_remote_qemu_exit fuel privs table = gdb_remote_exit fuel privs (some table)
