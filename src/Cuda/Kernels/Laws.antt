-- ===== src/Cuda/Kernels/Laws.antt =====
-- The registry answers as a map of host functions, launch configurations come off the stack last
-- first, and a submitted command has run when `submit` returns.
use proto_gpu.Prelude.{
  ℕ, ◌≡◌, refl, ap, sym, ◌∙◌, String, Option, none, some, List, [], ◌∷◌, ◌++◌, arith, ◌==◌,
  if◌then◌else◌, fun_ext, subst, if_elim,
}
use proto_gpu.Prelude.Dict.{lookup, insert, lookup-insert}
use proto_gpu.Cuda.Kernels.{
  KernelInfo, KernelRegistry, register_function, unregister_module, lookup_kernel, CallConfig,
  LaunchConfigStack, push, pop, split_last, Queues, queue_or_empty, run_all, submit,
}

pub data RegistryCall : Type 0 where
  registers : ℕ → ℕ → Option String → RegistryCall
  unregisters : ℕ → RegistryCall

abbrev pub after_call : KernelRegistry → RegistryCall → KernelRegistry
after_call r (registers module_id host_fun name) = register_function r module_id host_fun name
after_call r (unregisters module_id) = unregister_module r module_id

abbrev pub after_calls : KernelRegistry → List RegistryCall → KernelRegistry
after_calls r [] = r
after_calls r (c ∷ cs) = after_calls (after_call r c) cs

-- What the registry is to be: a function from host functions to kernels.
abbrev pub Kernels : Type 0
Kernels = ℕ → Option KernelInfo

abbrev pub unless_of : ℕ → Option KernelInfo → Option KernelInfo
unless_of module_id none = none
unless_of module_id (some ki) = if ki.module_id == module_id then none else some ki

abbrev pub spec_call : Kernels → RegistryCall → Kernels
spec_call k (registers module_id host_fun none) = k
spec_call k (registers module_id host_fun (some name)) = λ f.
    if host_fun == 0
    then k f
    else if host_fun == f
    then some (record { module_id = module_id; device_name = name })
    else k f
spec_call k (unregisters module_id) = λ f. unless_of module_id (k f)

abbrev pub spec_calls : Kernels → List RegistryCall → Kernels
spec_calls k [] = k
spec_calls k (c ∷ cs) = spec_calls (spec_call k c) cs

-- Each host function has one entry.
abbrev Unique : KernelRegistry → Type 0
Unique [] = Unit {0}
Unique ((f, ki) ∷ r) = (lookup f r ≡ none) × Unique r

insert-Unique : (f : ℕ) (ki : KernelInfo) (r : KernelRegistry) → Unique r → Unique (insert f ki r)
unfolding insert lookup
insert-Unique f ki [] u = (refl, tt)
insert-Unique f ki ((g, kj) ∷ r) (fresh, u) =
    ground (arith, insert-Unique f ki r u, lookup-insert g f ki r)

lookup-unregister_module :
    (r : KernelRegistry) (module_id f : ℕ)
    → Unique r
    → lookup f (unregister_module r module_id) ≡ unless_of module_id (lookup f r)
unfolding lookup unregister_module
lookup-unregister_module [] module_id f u = refl
lookup-unregister_module ((g, ki) ∷ r) module_id f (fresh, u) =
    ground (arith, lookup-unregister_module r module_id f u)

unregister_module-Unique :
    (r : KernelRegistry) (module_id : ℕ) → Unique r → Unique (unregister_module r module_id)
unfolding unregister_module
unregister_module-Unique [] module_id u = tt
unregister_module-Unique ((g, ki) ∷ r) module_id (fresh, u) =
    ground (arith, unregister_module-Unique r module_id u, lookup-unregister_module r module_id g u)

after_call-Unique : (r : KernelRegistry) (c : RegistryCall) → Unique r → Unique (after_call r c)
unfolding register_function
after_call-Unique r (registers module_id host_fun none) u = u
after_call-Unique r (registers module_id host_fun (some name)) u =
    ground
      (arith, insert-Unique host_fun (record { module_id = module_id; device_name = name }) r u)
after_call-Unique r (unregisters module_id) u = unregister_module-Unique r module_id u

lookup-after_call :
    (r : KernelRegistry) (c : RegistryCall) (f : ℕ)
    → Unique r
    → lookup f (after_call r c) ≡ spec_call (λ g. lookup g r) c f
unfolding register_function
lookup-after_call r (registers module_id host_fun none) f u = refl
lookup-after_call r (registers module_id host_fun (some name)) f u =
    ground
      (arith, lookup-insert f host_fun (record { module_id = module_id; device_name = name }) r)
lookup-after_call r (unregisters module_id) f u = lookup-unregister_module r module_id f u

lookup-after_calls :
    (r : KernelRegistry) (cs : List RegistryCall) (f : ℕ)
    → Unique r
    → lookup f (after_calls r cs) ≡ spec_calls (λ g. lookup g r) cs f
lookup-after_calls r [] f u = refl
lookup-after_calls r (c ∷ cs) f u =
    lookup-after_calls (after_call r c) cs f (after_call-Unique r c u)
    ∙ ap (λ (k : Kernels). spec_calls k cs f) (fun_ext (λ g. lookup-after_call r c g u))

-- After any sequence of registrations and removals, a lookup answers what the function from host
-- functions to kernels answers that each call updates.
pub lookup_kernel-after_calls :
    (cs : List RegistryCall) (f : ℕ)
    → lookup_kernel (after_calls [] cs) f ≡ spec_calls (λ g. none) cs f
unfolding lookup_kernel lookup
lookup_kernel-after_calls cs f = lookup-after_calls [] cs f tt

split_last-append :
    (c : CallConfig) (rest : List CallConfig) (d : CallConfig)
    → split_last c (rest ++ d ∷ []) ≡ (c ∷ rest, d)
unfolding split_last
split_last-append c [] d = refl
split_last-append c (e ∷ rest) d =
    ap (λ (r : LaunchConfigStack × CallConfig). (c ∷ r.0, r.1)) (split_last-append e rest d)

-- The configuration that was pushed last is popped, and the stack is as it was.
pub pop-push : (s : LaunchConfigStack) (c : CallConfig) → pop (push s c) ≡ (s, some c)
unfolding pop push
pop-push [] c = refl
pop-push (d ∷ s) c =
    ap (λ (r : LaunchConfigStack × CallConfig). (r.0, some r.1)) (split_last-append d s c)

module _ {ℓ} {S : Type ℓ} where
  abbrev pub after_submits : Queues S → List (ℕ × Option (S → S)) → S → Queues S × S
  after_submits qs [] s = (qs, s)
  after_submits qs ((stream, cmd) ∷ rest) s =
      let (qs', s') = submit qs stream cmd s in after_submits qs' rest s'

  -- The commands that are not empty, in order.
  abbrev pub given : List (ℕ × Option (S → S)) → List (S → S)
  given [] = []
  given ((stream, none) ∷ rest) = given rest
  given ((stream, some cmd) ∷ rest) = cmd ∷ given rest

  -- No command waits in any queue.
  abbrev pub AllRun : Queues S → Type ℓ
  AllRun [] = Unit
  AllRun ((stream, q) ∷ qs) = (q ≡ []) × AllRun qs

  queue_or_empty-AllRun :
      (qs : Queues S) (stream : ℕ) → AllRun qs → queue_or_empty (lookup stream qs) ≡ []
  unfolding lookup queue_or_empty
  queue_or_empty-AllRun [] stream h = refl
  queue_or_empty-AllRun ((k, q) ∷ qs) stream h =
      if_elim (λ (o : Option (List (S → S))). queue_or_empty o ≡ []) (k == stream) h.0
        (queue_or_empty-AllRun qs stream h.1)

  insert-AllRun : (qs : Queues S) (stream : ℕ) → AllRun qs → AllRun (insert stream [] qs)
  unfolding insert
  insert-AllRun [] stream h = (refl, tt)
  insert-AllRun ((k, q) ∷ qs) stream h =
      if_elim AllRun (k == stream) (refl, h.1) (h.0, insert-AllRun qs stream h.1)

  submit-AllRun :
      (qs : Queues S) (stream : ℕ) (cmd : S → S) (s : S)
      → AllRun qs
      → submit qs stream (some cmd) s ≡ (insert stream [] qs, cmd s)
  unfolding submit run_all
  submit-AllRun qs stream cmd s h =
      ap (λ (q : List (S → S)). (insert stream [] qs, run_all (q ++ cmd ∷ []) s))
        (queue_or_empty-AllRun qs stream h)

  -- Over any sequence of submissions to any streams, each command that is
  -- not empty has run once, in the order of
  -- submission, when its `submit` returns, and none is left in a queue.
  pub after_submits-run_all :
      (qs : Queues S) (cmds : List (ℕ × Option (S → S))) (s : S)
      → AllRun qs
      → AllRun (after_submits qs cmds s).0 × ((after_submits qs cmds s).1 ≡ run_all (given cmds) s)
  unfolding run_all submit
  after_submits-run_all qs [] s h = (h, refl)
  after_submits-run_all qs ((stream, none) ∷ rest) s h = after_submits-run_all qs rest s h
  after_submits-run_all qs ((stream, some cmd) ∷ rest) s h =
      subst
        (λ (r : Queues S × S).
          AllRun (after_submits r.0 rest r.1).0
          × ((after_submits r.0 rest r.1).1 ≡ run_all (given rest) (cmd s)))
        (sym (submit-AllRun qs stream cmd s h))
        (after_submits-run_all (insert stream [] qs) rest (cmd s) (insert-AllRun qs stream h))
