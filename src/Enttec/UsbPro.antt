-- ===== src/Enttec/UsbPro.antt =====
-- libs/enttec/libenttec/usb_pro.cc: packets to and from the PRO through the D2XX driver.
pub mod Driver
pub mod Send
pub mod Receive
pub mod RxDmx
pub mod Open
pub mod Tries
pub mod Framing
pub mod Stream
pub mod Total
pub mod Settled
