-- ===== src/Handle/Actions.antt =====
-- What each action on a timer of src/module/iotjs_module_timer.c does to a valid one.
use ble_central.Base.{
  ℕ, suc, ◌-◌, ◌<◌, ◌≡◌, ◌≢◌, inl, inr, refl, ap, sym, ◌∙◌, arith, true, false, [], ◌∷◌, ◌++◌,
  Option, none, some, ==_refl, Bool-cases, Option-cases, Outcome, ok,
}
use ble_central.Base.Int.{ℤ}
use ble_central.Handle.{
  Uv, Wrap, jobject_of, validate, destroy, jobject, get_uv_handle, with_close_call, handle_timeout,
  release_ref, handle_on_close, on_handle_closed, close,
}
use ble_central.Handle.Timer.{start, stop, on_timeout, js_start, js_stop}
use ble_central.Handle.Life.{
  IsUv, World, hold, drop_ref, stops, fires, closed, collected, starts, acquire_ref, act, IsWorld,
}

pub jobject_of_lem :
    {H : Type 0} → (w : Wrap H) → w.native ≡ some w.self → jobject_of w ≡ ok w.jobject
unfolding jobject_of
jobject_of_lem w n = rw n (rw (==_refl w.self) refl)

-- The checks that every access makes pass for an open handle.
module _ {H : Type 0} (w : Wrap H) (n : w.native ≡ some w.self) (l : w.handle_data ≡ w.self) where
  pub validate_lem : (h : ℕ) → w.handle ≡ some h → validate w ≡ ok tt
  unfolding validate
  validate_lem h e =
      rw (jobject_of_lem w n) (rw e (rw (l, ==_refl w.self) (rw n (rw (==_refl w.self) refl))))

  get_uv_handle_lem : (h : ℕ) → w.handle ≡ some h → get_uv_handle w ≡ ok h
  unfolding get_uv_handle
  get_uv_handle_lem h e = rw (validate_lem h e) (rw e refl)

  pub jobject_lem : (h : ℕ) → w.handle ≡ some h → jobject w ≡ ok w.jobject
  unfolding jobject
  jobject_lem h e = rw (validate_lem h e) (jobject_of_lem w n)

release_ref_lem :
    {H : Type 0}
    → (w : Wrap H) (n : ℕ) → w.refs ≡ suc n
    → release_ref w ≡ ok (record w { refs = n })
unfolding release_ref
release_ref_lem w n e = rw e refl

-- The wrapper once its handle is closed.
abbrev pub shut_wrap : {H : Type 0} → Wrap H → ℕ → Wrap H
shut_wrap w n = record w { calls = with_close_call w.calls w.on_close_cb; handle = none; refs = n }

handle_on_close_lem :
    {H : Type 0}
    → (w : Wrap H) (n : ℕ) → w.native ≡ some w.self
    → w.refs ≡ suc n
    → handle_on_close w ≡ ok (shut_wrap w n)
unfolding handle_on_close
handle_on_close_lem w n e r =
    let w' = record w { calls = with_close_call w.calls w.on_close_cb; handle = none } in
    rw (jobject_of_lem w' e) (release_ref_lem w' n r)

close_lem :
    {H : Type 0}
    → (u : Uv H) (w : Wrap H) (cb : Option ℕ) (h : ℕ) → w.handle ≡ some h
    → u.is_closing w.uv ≡ false
    → close u w cb ≡ record w { on_close_cb = cb; uv = u.close w.uv }
unfolding close
close_lem u w cb h e c = rw e (rw c refl)

pub not-none : (o : Option ℕ) → o ≢ none → (h : ℕ) × (o ≡ some h)
not-none none n = absurd (n refl)
not-none (some h) n = (h, refl)

-- What an allowed action gives.
pub record Acted {H : Type 0} (u : Uv H) (r : Outcome (World H)) : Type 0 where
  pub after : World H
  pub returned : r ≡ ok after
  pub valid : IsWorld u after

module _ {H : Type 0} (u : Uv H) (laws : IsUv u) (x : World H) (v : IsWorld u x) where
  -- Any reference that JavaScript holds is counted.
  counted : (n : ℕ) → x.held ≡ suc n → (k : ℕ) × (x.wrap.refs ≡ suc k)
  counted n e = elim (Option-cases x.wrap.handle) [
    | inl c ↦ (n, (v.shut c).0 ∙ e)
    | inr c ↦ (x.held, v.opened c.0 c.1)
  ]

  pub hold-Acted : Acted u (act u hold x)
  unfolding act
  hold-Acted = record {
    after = record { wrap = acquire_ref x.wrap; held = suc x.held };
    returned = refl;
    valid = record {
      native = v.native;
      linked = v.linked;
      opened = λ h e. ap suc (v.opened h e);
      shut = λ n. (ap suc (v.shut n).0, (v.shut n).1);
    };
  }

  pub drop_ref-Acted : 0 < x.held → Acted u (act u drop_ref x)
  unfolding act
  drop_ref-Acted h =
      let k = counted (x.held - 1) (omega arith) in
      record {
        after = record { wrap = record (x.wrap) { refs = k.0 }; held = x.held - 1 };
        returned = rw (release_ref_lem x.wrap k.0 k.1) refl;
        valid = record {
          native = v.native;
          linked = v.linked;
          opened = λ g e. omega (arith, v.opened g e, k.1);
          shut = λ n. (omega (arith, (v.shut n).0, k.1), (v.shut n).1);
        };
      }

  pub starts-Acted : (t r : ℤ) (h : ℕ) → x.wrap.handle ≡ some h → Acted u (act u (starts t r) x)
  unfolding act js_start start
  starts-Acted t r h e = record {
    after = record { wrap = record (x.wrap) { uv = (u.start x.wrap.uv t r).0 }; held = x.held };
    returned = rw (validate_lem x.wrap v.native v.linked h e) refl;
    valid = record {
      native = v.native;
      linked = v.linked;
      opened = v.opened;
      shut = λ n. absurd (some_none (sym e ∙ n));
    };
  }
    where
      some_none : some h ≡ none → ⊥
      some_none p = cc

  pub stops-Acted : (h : ℕ) → x.wrap.handle ≡ some h → Acted u (act u stops x)
  unfolding act js_stop stop
  stops-Acted h e = elim (Bool-cases (u.is_closing x.wrap.uv)) [
    | inl c ↦ record { after = x; returned = rw checked (rw got (rw c refl)); valid = v }
    | inr c ↦ record {
      after = record {
        wrap = record (x.wrap) { on_close_cb = none; uv = u.close x.wrap.uv };
        held = x.held;
      };
      returned = rw checked (rw got (rw c (rw (close_lem u x.wrap none h e c) refl)));
      valid = record {
        native = v.native;
        linked = v.linked;
        opened = v.opened;
        shut = λ n. ((v.shut n).0, laws.closes x.wrap.uv);
      };
    }
  ]
    where
      checked : validate x.wrap ≡ ok tt
      checked = validate_lem x.wrap v.native v.linked h e

      got : get_uv_handle x.wrap ≡ ok h
      got = get_uv_handle_lem x.wrap v.native v.linked h e

  pub fires-Acted : u.is_closing x.wrap.uv ≡ false → Acted u (act u fires x)
  unfolding act on_timeout
  fires-Acted c = elim (Option-cases x.wrap.handle) [
    | inl n ↦ absurd (true_false (sym (v.shut n).1 ∙ c))
    | inr h ↦ record {
      after = record {
        wrap = record (x.wrap) { calls = x.wrap.calls ++ (handle_timeout ∷ []) };
        held = x.held;
      };
      returned =
          rw (validate_lem x.wrap v.native v.linked h.0 h.1)
            (rw (jobject_lem x.wrap v.native v.linked h.0 h.1) refl);
      valid = record { native = v.native; linked = v.linked; opened = v.opened; shut = v.shut };
    }
  ]
    where
      true_false : true ≡ false → ⊥
      true_false p = cc

  pub closed-Acted :
      (h : ℕ) → x.wrap.handle ≡ some h → u.is_closing x.wrap.uv ≡ true → Acted u (act u closed x)
  unfolding act on_handle_closed
  closed-Acted h e c = record {
    after = record { wrap = shut_wrap x.wrap x.held; held = x.held };
    returned =
        rw (validate_lem x.wrap v.native v.linked h e)
          (rw (handle_on_close_lem x.wrap x.held v.native (v.opened h e)) refl);
    valid = record {
      native = v.native;
      linked = v.linked;
      opened = λ g n. absurd (none_some n);
      shut = λ n. (refl, c);
    };
  }
    where
      none_some : {g : ℕ} → none ≡ some g → ⊥
      none_some p = cc

  pub collected-Acted : x.wrap.refs ≡ 0 → Acted u (act u collected x)
  unfolding act destroy
  collected-Acted r = elim (Option-cases x.wrap.handle) [
    | inr c ↦ absurd (omega (arith, v.opened c.0 c.1))
    | inl c ↦ record {
      after = record { wrap = record (x.wrap) { freed = true }; held = x.held };
      returned = rw c refl;
      valid = record { native = v.native; linked = v.linked; opened = v.opened; shut = v.shut };
    }
  ]
