-- ===== src/Usb/Descriptors.antt =====
-- The descriptors of src/usb.cpp as the bytes of their packed structs, the strings of src/dfu.cpp,
-- and GET_DESCRIPTOR.
use ln_dso_stm32_dfu_bootloa.Common.{
  ℕ, ◌+◌, ◌-◌, ◌*◌, ◌/◌, ◌%◌, Bool, List, [], ◌∷◌, ◌++◌, Option, none, some, length, get_or, set,
  take, overlay, u8, codes, bit_or, leb, ◌==◌, if◌then◌else◌,
}
use ln_dso_stm32_dfu_bootloa.Config.{Config}
use ln_dso_stm32_dfu_bootloa.Stubs.{strlen}
use ln_dso_stm32_dfu_bootloa.Dfu.Types.{ReturnCode, handled, notsupp}
use ln_dso_stm32_dfu_bootloa.Dfu.{dfu_transfer_size}
use ln_dso_stm32_dfu_bootloa.Usb.Structs.{
  le16, DfuDescriptor, dfu_descriptor_bytes, DeviceDescriptor, device_descriptor_bytes,
  ConfigDescriptor, config_descriptor_bytes, InterfaceDescriptor, interface_descriptor_bytes,
}
use ln_dso_stm32_dfu_bootloa.Usb.State.{Usb, max_packet_size, on_buffer}

abbrev pub usb_dt_device : ℕ
usb_dt_device = 1

abbrev pub usb_dt_configuration : ℕ
usb_dt_configuration = 2

abbrev pub usb_dt_string : ℕ
usb_dt_string = 3

abbrev pub usb_dt_interface : ℕ
usb_dt_interface = 4

abbrev pub dfu_functional : ℕ
dfu_functional = 0x21

abbrev pub usb_langid_english_us : ℕ
usb_langid_english_us = 0x409

-- `dev_desc`
abbrev pub device_descriptor : DeviceDescriptor
device_descriptor = record {
  b_length = 18;
  b_descriptor_type = usb_dt_device;
  bcd_usb = 0x0200;
  b_device_class = 0;
  b_device_sub_class = 0;
  b_device_protocol = 0;
  b_max_packet_size0 = max_packet_size;
  id_vendor = 0x1d50;
  id_product = 0x6021;
  bcd_device = 0x0200;
  i_manufacturer = 1;
  i_product = 2;
  i_serial_number = 3;
  b_num_configurations = 1;
}

abbrev pub dev_desc : List ℕ
dev_desc = device_descriptor_bytes device_descriptor

abbrev pub usb_dfu_can_download : ℕ
usb_dfu_can_download = 1

abbrev pub usb_dfu_can_upload : ℕ
usb_dfu_can_upload = 2

abbrev pub usb_dfu_will_detach : ℕ
usb_dfu_will_detach = 8

abbrev pub dfu_attributes : Config → ℕ
dfu_attributes cfg =
    let attributes = bit_or usb_dfu_can_download usb_dfu_will_detach in
    if cfg.enable_dfu_upload then bit_or usb_dfu_can_upload attributes else attributes

-- `config_desc.config`; its total length is `sizeof(config_desc)`.
abbrev pub config : ConfigDescriptor
config = record {
  b_length = 9;
  b_descriptor_type = usb_dt_configuration;
  w_total_length = 27;
  b_num_interfaces = 1;
  b_configuration_value = 1;
  i_configuration = 5;
  bm_attributes = 0xc0;
  b_max_power = 0x32;
}

-- `config_desc.iface`
abbrev pub iface : InterfaceDescriptor
iface = record {
  b_length = 9;
  b_descriptor_type = usb_dt_interface;
  b_interface_number = 0;
  b_alternate_setting = 0;
  b_num_endpoints = 0;
  b_interface_class = 0xfe;
  b_interface_sub_class = 1;
  b_interface_protocol = 2;
  i_interface = 4;
}

-- `config_desc.dfu_function`
abbrev pub dfu_function : Config → DfuDescriptor
dfu_function cfg = record {
  b_length = 9;
  b_descriptor_type = dfu_functional;
  bm_attributes = dfu_attributes cfg;
  w_detach_timeout = 255;
  w_transfer_size = dfu_transfer_size;
  bcd_dfu_version = 0x011a;
}

abbrev pub config_desc : Config → List ℕ
config_desc cfg =
    config_descriptor_bytes config
    ++ interface_descriptor_bytes iface
    ++ dfu_descriptor_bytes (dfu_function cfg)

abbrev pub configuration_value : ℕ
configuration_value = config.b_configuration_value

-- `_usb_strings`, without the NULs at their ends; `serial_no` is the serial number's buffer.
abbrev pub usb_strings : Config → List ℕ → List (List ℕ)
usb_strings cfg serial_no =
    codes "davidgf.net (libopencm3 based)"
    ∷ (codes "lnDSO bootloader [" ++ (cfg.version ++ codes "]"))
    ∷ serial_no
    ∷ (codes "@Internal Flash /0x08000000/"
        ++ (cfg.bootldr_size_text
            ++ (codes "*001Ka," ++ (cfg.payload_size_text ++ codes "*001Kg"))))
    ∷ (codes "Bootloader config: "
        ++ (watchdog cfg.enable_watchdog
            ++ (flag cfg.enable_safewrite (codes "SafeWr ")
                ++ (flag cfg.enable_protections (codes "RDO/DBG ")
                    ++ flag cfg.enable_checksum (codes "FW-CRC ")))))
    ∷ []
  where
    flag : Bool → List ℕ → List ℕ
    flag b text = if b then text else []

    watchdog : Option (List ℕ) → List ℕ
    watchdog o = elim o [ none ↦ [] | some period ↦ codes "WtDg[" ++ (period ++ codes "s] ") ]

-- The loop that stores the characters as `wData[i]`, from `i` on.
unfoldable pub put_chars : List ℕ → ℕ → List ℕ → List ℕ
put_chars [] i buffer = buffer
put_chars (c ∷ s) i buffer = put_chars s (i + 1) (overlay buffer (2 + 2 * i) (le16 c))

-- The string descriptor with a number above 0; `length strings` is the size of the array.
unfoldable pub get_string : ℕ → ℕ → Usb → ReturnCode × Usb
get_string descr_idx w_index u =
    let array_idx = descr_idx - 1 in
    let text = get_or u.strings array_idx [] in
    let numchars = strlen text in
    let size = u8 (numchars * 2 + 2) in
    if leb (length u.strings) array_idx
    then (notsupp, u)
    else if w_index == usb_langid_english_us
    then (
      handled,
      record (on_buffer (λ b. put_chars (take numchars text) 0 (set b 0 size)) u) {
        datasize = size;
      },
    )
    else (notsupp, u)

unfoldable pub string_descriptor : ℕ → ℕ → Usb → ReturnCode × Usb
string_descriptor descr_idx w_index u =
    let u = on_buffer (λ b. set b 1 usb_dt_string) u in
    if descr_idx == 0
    then (
      handled,
      record (on_buffer (λ b. set (overlay b 2 (le16 usb_langid_english_us)) 0 4) u) {
        datasize = 4;
      },
    )
    else get_string descr_idx w_index u

unfoldable pub usb_standard_get_descriptor : Config → Usb → ReturnCode × Usb
usb_standard_get_descriptor cfg u =
    let descr_idx = u.req.w_value % 256 in
    let descr_type = u.req.w_value / 256 in
    if descr_type == usb_dt_device
    then (handled, record (on_buffer (λ b. overlay b 0 dev_desc) u) { datasize = length dev_desc })
    else if descr_type == usb_dt_configuration
    then (
      handled,
      record (on_buffer (λ b. overlay b 0 (config_desc cfg)) u) {
        datasize = length (config_desc cfg);
      },
    )
    else if descr_type == usb_dt_string
    then string_descriptor descr_idx u.req.w_index u
    else (notsupp, u)
