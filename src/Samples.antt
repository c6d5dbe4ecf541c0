-- ===== src/Samples.antt =====
-- Values that the tests of several modules share.
use cloud_native_emulator.Prelude.{
  ℕ, ◌+◌, ◌-◌, ◌*◌, some, none, true, List, [], ◌∷◌, String, refl, arith, text_dec,
}
use cloud_native_emulator.Prelude.Float.{Float}
use cloud_native_emulator.Prelude.Sets.{contains}
use cloud_native_emulator.Template.{Axis, Role, Edge, number, Template, IsWellFormed}
use cloud_native_emulator.Prelude.Int.{ℤ, pos, ◌+ℤ◌, ◌*ℤ◌, ltb_ℤ, eqb_ℤ}

abbrev pub digits : ℕ → List ℕ → ℕ
digits acc [] = acc
digits acc (c ∷ cs) = digits (acc * 10 + (c - b'0')) cs

-- Whole numbers in the place of floats: exact on what they can hold.
abbrev pub whole : Float
whole = record {
  F = ℤ;
  of_int = λ n. n;
  int_less = ltb_ℤ;
  less_int = ltb_ℤ;
  int_equal = eqb_ℤ;
  ties_up = λ n. true;
  int_fits = λ n. true;
  add = ◌+ℤ◌;
  mul = ◌*ℤ◌;
  less = ltb_ℤ;
  equal = eqb_ℤ;
  trunc = λ n. some n;
  parse = λ s. some (pos (digits 0 s));
}

abbrev pub axis : ℕ → ℕ → Axis ℤ
axis a b = record { a = pos a; b = pos b }

abbrev pub role : ℕ → Axis ℤ → Role ℤ
role count net = record {
  count = count;
  cpu = axis 1 1;
  ram = axis 1 1;
  net = net;
  tier = none;
  node = none;
}

abbrev pub edge : String → String → Edge
edge src dst = record { src = src; dst = dst }

abbrev pub diamond : Template ℤ
diamond = record {
  name = "diamond";
  x = number (pos 10);
  roles =
      ("db", role 1 (axis 0 0))
      ∷ ("api", role 2 (axis 1 5))
      ∷ ("auth", role 1 (axis 2 0))
      ∷ ("gateway", role 1 (axis 3 1))
      ∷ [];
  edges =
      edge "gateway" "api"
      ∷ edge "gateway" "auth"
      ∷ edge "api" "db"
      ∷ edge "auth" "db"
      ∷ edge "api" "api"
      ∷ [];
}

pub diamond-IsWellFormed : IsWellFormed diamond
unfolding contains text_dec
diamond-IsWellFormed = record {
  distinct = (refl, (refl, (refl, (refl, tt))));
  joined = ((refl, refl), ((refl, refl), ((refl, refl), ((refl, refl), ((refl, refl), tt)))));
  counted = omega arith;
}
