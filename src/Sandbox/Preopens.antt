-- ===== src/Sandbox/Preopens.antt =====
-- What `execute` of sandbox.rs hands to wasmtime: a store with what the grant gives.
use mathlib.Core.List.{append-nil, append_assoc}
use toolcage.Prelude.{
  ◌+◌, ◌/◌, ◌^◌, saturating_mul, ◌≡◌, ◌↔◌, inl, inr, refl, sym, ap, ◌∙◌, subst, Bytes, List, [],
  ◌∷◌, ◌++◌, ok, ok-injective, Result-cases,
}
use toolcage.Policy.{Grant, Mount, MountMode, read_only, read_write}
use toolcage.Sandbox.{Perms, Preopen, WasiCtx, StoreSetup, Host}
use toolcage.Sandbox.Guest.{preopen_of, perms_of, preopen_all, wasi_start, store_setup}

-- A preopened directory stands for a mount: the same paths, and the right to write just when the
-- mount is read-write.
pub record IsPreopen (m : Mount) (p : Preopen) : Type 0 where
  pub host_is : p.host_path ≡ m.host_path
  pub guest_is : p.guest_path ≡ m.guest_path
  pub dir_all : (p.dir_perms ≡ Perms.all) ↔ (m.mode ≡ read_write)
  pub file_all : (p.file_perms ≡ Perms.all) ↔ (m.mode ≡ read_write)

-- One preopened directory to a mount, in order.
pub data Mirrors : List Mount → List Preopen → Type 0 where
  bare : Mirrors [] []
  with_mount :
      (m : Mount) (p : Preopen) (ms : List Mount) (ps : List Preopen)
      → IsPreopen m p
      → Mirrors ms ps
      → Mirrors (m ∷ ms) (p ∷ ps)

-- A store with what the grant gives, and nothing more.
pub record IsGranted (g : Grant) (stdin_bytes : Bytes) (s : StoreSetup) : Type 0 where
  pub stdin_is : s.wasi.stdin ≡ stdin_bytes
  pub env_is : s.wasi.env ≡ g.env
  pub preopens_are : Mirrors g.mounts s.wasi.preopens
  pub fuel_is : s.fuel ≡ g.limits.fuel
  pub memory_is : s.memory_size ≡ saturating_mul g.limits.memory_max_mb (2 ^ 20)
  pub deadline_is : s.epoch_deadline ≡ g.limits.timeout_ms / 100 + 2

perms_of_lem : (mode : MountMode) → (perms_of mode ≡ Perms.all) ↔ (mode ≡ read_write)
unfolding perms_of
perms_of_lem read_only = (λ e. cc, λ e. cc)
perms_of_lem read_write = (λ e. refl, λ e. refl)

preopen_of-IsPreopen : (m : Mount) → IsPreopen m (preopen_of m)
unfolding preopen_of
preopen_of-IsPreopen m = record {
  host_is = refl;
  guest_is = refl;
  dir_all = perms_of_lem m.mode;
  file_all = perms_of_lem m.mode;
}

-- The loop over the mounts adds their preopened directories to the builder.
pub record IsPreopened (ms : List Mount) (ctx done : WasiCtx) : Type 0 where
  pub added : List Preopen
  pub mirrored : Mirrors ms added
  pub done_is : done ≡ record ctx { preopens = ctx.preopens ++ added }

module _ {W : Type 0} (host : Host W) where
  pub preopen_all-IsPreopened :
      (w : W) (ms : List Mount) (ctx done : WasiCtx)
      → preopen_all host w ms ctx ≡ ok done
      → IsPreopened ms ctx done
  unfolding preopen_all
  preopen_all-IsPreopened w [] ctx done = λ e. record {
    added = [];
    mirrored = bare;
    done_is =
        sym (ok-injective e)
        ∙ ap (λ ps. record ctx { preopens = ps }) (sym (append-nil ctx.preopens));
  }
  preopen_all-IsPreopened w (m ∷ ms) ctx done =
      let p = preopen_of m in
      elim (Result-cases (host.preopened_dir p.host_path p.guest_path p.dir_perms p.file_perms w)) [
        | inr (x, h) ↦ rw (h, preopen_all) (λ e. cc)
        | inl (u, h) ↦
            rw (h, preopen_all)
              (λ e.
                let q =
                  preopen_all-IsPreopened w ms (record ctx { preopens = ctx.preopens ++ p ∷ [] })
                    done e in
                record {
                  added = p ∷ q.added;
                  mirrored = with_mount m p ms q.added (preopen_of-IsPreopen m) q.mirrored;
                  done_is =
                      q.done_is
                      ∙ ap (λ ps. record ctx { preopens = ps })
                          (append_assoc ctx.preopens (p ∷ []) q.added);
                })
      ]

  -- A store with what the grant gives.
  pub preopen_all-IsGranted :
      (w : W) (g : Grant) (stdin_bytes : Bytes) (ctx : WasiCtx)
      → preopen_all host w g.mounts (wasi_start g stdin_bytes) ≡ ok ctx
      → IsGranted g stdin_bytes (store_setup g ctx)
  unfolding wasi_start store_setup
  preopen_all-IsGranted w g stdin_bytes ctx e =
      let q = preopen_all-IsPreopened w g.mounts (wasi_start g stdin_bytes) ctx e in
      record {
        stdin_is = ap (λ c. c.stdin) q.done_is;
        env_is = ap (λ c. c.env) q.done_is;
        preopens_are = subst (Mirrors g.mounts) (sym (ap (λ c. c.preopens) q.done_is)) q.mirrored;
        fuel_is = refl;
        memory_is = refl;
        deadline_is = refl;
      }
