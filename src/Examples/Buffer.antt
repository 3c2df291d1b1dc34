-- ===== src/Examples/Buffer.antt =====
-- The registrations of src/buffer.cpp at concrete inputs.
use hip_object.Prelude.{
  ◌≡◌, ◌==◌, if◌then◌else◌, refl, subst, true, false, some, none, List, [], ◌∷◌, length,
}
use hip_object.Buffer.{
  System, Policy, BufEntry, Item, register_buffer, insert, insert_unless, refusal,
  deregister_buffer,
}
use hip_object.Buffer.Register.{Limits, register_buffer-Registers}
use hip_object.Buffer.Resources.{Registers}
use hip_object.Buffer.Keys.{IsMap}
use hip_object.Buffer.Map.{
  Reached, at_first, changed, inserts, Reached-IsMap, Deregisters, deregister_buffer-Deregisters,
}

-- Device memory of 100 bytes at 1000, which only a staging buffer makes reachable.
abbrev system : System
system = record {
  supports_dmabuf = true;
  export_dmabuf = λ log addr len. some (7, 0);
  reg_dmabuf_mr = λ log offset len addr fd. none;
  reg_mr = λ log addr len. if addr == 1000 then none else some (length log);
  host_malloc = λ log size. some 5000;
  pointer_is_device = λ ptr. some true;
  mem_get_address_range = λ ptr. some (1000, 100);
}

abbrev policy : Policy
policy = record { enabled = true; require_gpu_direct = false }

register_buffer-Registers_example :
    Registers 1000 100 [] [] (register_buffer system policy 1000 100 [] [] [])
    × Limits 100 [] [] (register_buffer system policy 1000 100 [] [] [])
register_buffer-Registers_example = register_buffer-Registers system policy 1000 100 [] [] []

abbrev entry : BufEntry
entry = record { host_buf = some 5000; mr = 3; size = 100; is_dmabuf = false; remote_addr = 5000 }

abbrev one_item : List Item
one_item = record { key = 1000; entry = entry; copies = 0 } ∷ []

inserts_one : (insert 1000 entry [] []).1 ≡ one_item
unfolding insert insert_unless refusal
inserts_one = refl

one_item-Reached : Reached one_item
one_item-Reached = subst Reached inserts_one (changed at_first (inserts 1000 entry []))

Reached-IsMap_example : IsMap one_item
Reached-IsMap_example = Reached-IsMap one_item one_item-Reached

deregister_buffer-Deregisters_example :
    Deregisters 1000 one_item [] (deregister_buffer 1000 one_item [])
deregister_buffer-Deregisters_example =
    deregister_buffer-Deregisters 1000 one_item [] one_item-Reached
