-- ===== src/Witness/Devices.antt =====
-- A bus with two ROMs.
use cmpe220fall.Base.{◌≤◌, ℕ, ◌≡◌, ◌+◌, ◌<◌, ◌⊎◌, refl, List, [], ◌∷◌, length, arith}
use cmpe220fall.Devices.Bus.{refused, loaded, DeviceMap, add_device, load, rom_device, copy}
use cmpe220fall.Devices.Routes.{
  IsDevices, empty-IsDevices, add_device-IsDevices, Loads, latest_at, add_all, load-Loads,
}
use cmpe220fall.Devices.Edges.{take, drop, load-add_zero, rom_device-load}

abbrev boot_rom : List ℕ
boot_rom = 0x13 ∷ 0 ∷ 0 ∷ 0 ∷ []

abbrev config_rom : List ℕ
config_rom = 7 ∷ 9 ∷ []

abbrev two_roms : DeviceMap (List ℕ)
two_roms = add_device 0x1000 boot_rom (add_device 0x2000 config_rom [])

two_roms-IsDevices : IsDevices two_roms
two_roms-IsDevices =
    add_device-IsDevices 0x1000 boot_rom (add_device 0x2000 config_rom []) (omega arith)
      (omega arith)
      (add_device-IsDevices 0x2000 config_rom [] (omega arith) (omega arith) empty-IsDevices)

test_config : load rom_device two_roms 0x2001 1 ≡ loaded (9 ∷ [])
unfolding load add_device rom_device copy
test_config = refl

load-Loads_example :
    Loads rom_device
      (latest_at ((0x1000, boot_rom) ∷ (0x2000, config_rom) ∷ []))
      0x2001
      1
      (load rom_device (add_all ((0x1000, boot_rom) ∷ (0x2000, config_rom) ∷ [])) 0x2001 1)
load-Loads_example =
    load-Loads rom_device ((0x1000, boot_rom) ∷ (0x2000, config_rom) ∷ []) 0x2001 1
      (omega arith, omega arith, (omega arith, omega arith, tt)) (omega arith) (omega arith)

load-add_zero_example :
    load rom_device (add_device 0 config_rom two_roms) 1 1 ≡ load rom_device two_roms 1 1
load-add_zero_example =
    load-add_zero rom_device two_roms config_rom 1 1 two_roms-IsDevices (omega arith) (omega arith)

rom_device-load_example :
    ((length boot_rom < 1 + 2) × (rom_device.load boot_rom 1 2 ≡ refused))
    ⊎ ((1 + 2 ≤ length boot_rom)
        × (rom_device.load boot_rom 1 2 ≡ loaded (take 2 (drop 1 boot_rom))))
rom_device-load_example = rom_device-load boot_rom 1 2 (omega arith)
