-- ===== src/Lib.antt =====
-- Kernel modules and user programs of this repository, modelled in antt.
--
-- The repository is a collection of small, independent drivers. Each has a state at file scope or in
-- a structure, file or device operations that the kernel calls, and an init and an exit function
-- that take resources from the kernel and give them back. The drivers do not call one another; what
-- they share is the way they are set up and torn down, and Kernel/Ledger.antt models that once: an
-- init or exit function is the list of the resources that its calls take and give back, and
-- `Settled` says that nothing is left taken and nothing is given back that was not taken.
--
-- Files and the code they are about:
--   Prelude (Tests, Lists, Int, Bits): Boolean tests, lists over native numbers, C integers, error
--     codes, and fields side by side in a word.
--   Kernel (Ledger, CharSetup): resources of the kernel, taken and given back, and the calls with which
--     most of the character devices here are set up.
--   WaitQueue: WaitQueue/wait1.c, a ring of messages with readers and writers that sleep. `Driver` is
--     the state at file scope, and Bounds, Fifo and Sleep are about its indexes, the order of the
--     messages, and the conditions of the sleeps; Runs has calls one after the other.
--   UsbSkeleton: USB/usbdrv3.c, the driver with asynchronous reads and writes. Read models
--     `skel_read` and the callback of the read URB, Write `skel_write`, its callback, flush, and
--     the suspend and reset hooks, Lifecycle probe, open, release and disconnect. Rule and Bounds hold
--     the invariant of the read buffer, Delivery and Answers what a read returns, Errors the paths
--     that fail, Flight the count of writes in flight, References and Freeing the reference count.
--   LockDrivers: Mutex/mtx1.c, Semaphore/sem1.c, Spinlock/spin1.c, Spinlock/spin2.c,
--     SeqLock/seqlock1.c and Atomic/atomic1.c, character devices with two threads. Drivers has a
--     module for each file, Setup the init and exit functions, which the six files write alike, and
--     Guarded the threads of mtx1.c, spin1.c and sem1.c as an interleaving of steps over a lock
--     interface. Readers/Seq and Readers/Rw have the writers and the readers of seqlock1.c and spin2.c, and Counting has the threads of atomic1.c, with no lock.
--   BlockDevice: BlockDriver/blk1.c. Transfer models the copies and the loop over the segments of a
--     request, Media opens, closes, the timer and the simulated media changes, Setup the init and
--     exit functions.
--   CharDevice: ReadonlyCharacter/char1.c. The message, its pointer and the loop of `device_read`.
--   Completion: Completion/comp1.c, a thread that reads and the unload wake through a completion. A
--     state is the flag, the completion's count and the place of the thread, and `run` is the thread
--     running alone until it sleeps, for a number of steps that the theorems bound.
--   BulkLoopback: USB/usbdrv4.c, a bulk driver that a device answers byte for byte. Read models
--     `test_usb1_read` with its buffer of left-over bytes, Write the rounds of `test_usb1_write`, Probe
--     the probe and the disconnect, Sharing the opens, closes and the disconnect of one device;
--     Stream and Binding hold the theorems on the bytes and on the resources.
--   UartDriver: UartDriver/test_serial.c. Transmit models the ring of `test_tx_chars`, Timer the
--     timer and the port's start and shutdown; Queue reads the ring as a queue.
--   Watchdog: Watchdog/watchdog.c, from the options to the calls on the watchdog's file. Disarm is
--     about how each of these runs ends, Ticks about which of them ticks.
--   AttributeDrivers: Procfs/procfs2.c, Sysfs/sysfs1.c and IRQ/irq1.c, character devices with a file
--     under /proc or /sys. ProcFile models the file under /proc and the ioctl, Procfs, Sysfs and Irq
--     the rest of the three; Cleanup is about their setups and unloads.
--   UsbMouse: USB/usbdrv1.c. Probe models the probe and the disconnect, Reports the interrupt URB.
--   Framebuffer: Framebuffer/fbexample.c. Framebuffer and Registers model the check of a mode and the
--     registers that it is packed into, Colors the palette and the blanking, Device the ioctl, the
--     probe and the removal; Fields reads the registers and the pixels back.
--   Chat: SocketTCP/tcpclient1.c and SocketTCP/tcpserv1.c. Chat and Lines are about the buffer that a
--     line is typed into, Session is the two loops on one connection, whose reads and writes come in
--     any order, Agreement what has been read of what was written.
--     Mains has the sockets of the two programs, and Datagrams the two programs of SocketUDP.
--   PlatformDrivers: the three examples of PlatformDriver, NetworkDriver/fake-eth.c, its device
--     eth-ins.c, GpioChip, IIODriver and CharacterDriverNew/char1.c. Probes models the probes and the
--     removals, Modules the operations and the other inits and exits; Bus is the loading and unloading
--     of the modules of a driver and of its device, Balance and Drivers are about what is given back.
--     PlatformDriverExample1/plat1.c, which brings its own device, is not on that bus.
--   KernelThreads: Kthread/thread2.c and Signal/signal2.c, threads that end on a stop or on a signal,
--     as an interleaving with the unload, and the setup of these and of Kthread/thread1.c (Setup).
--     Unload is about runs without a signal, Signals about what a signal does.
--   Signals: Signal/signal1.c and Signal/signal1_userspace/sig1usr.c. Delivery is about whom a read
--     sends its signal to.
--   FileDrivers: Procfs/procfs1.c (Proc), MiscDriver/misctest.c (Misc), Debugfs/debugfs2.c (Debug) and
--     Sysfs/sysfs-poll.c (Poll), drivers whose state is behind one or two files.
--   DeferredWork: the two modules of Timers, the three of Tasklet, and WaitQueue/wait2.c. What the init
--     functions leave to be run later, the kernel that runs it, and the unload are steps of one relation.
--   SmallModules: CharacterDriverNew/char2.c, CharacterDriver/example_character.c, USB/usbdrv2.c,
--     PCI/pci1.c, MemoryAlloc/kmalloc.c, MemoryAlloc/vmalloc.c and Debugfs/debugfs1.c, which take one
--     or two things and give them back (Cleanup).
--   Each Tests module applies the theorems at concrete inputs and runs the definitions.
--
-- Where the code calls the kernel, the model takes the kernel's answers as arguments: records of the
-- answers to an init function's calls, whether the copies to and from the user succeed, the outcomes
-- of sleeps and the completions of URBs as lists of rounds. Locks are an interface with named laws,
-- `check_disk_change` a function with the law that it asks the driver and has it revalidate. A
-- read of a connection takes some of the bytes that wait, as TCP has it; the conversions `%d` of
-- sysfs-poll.c are two functions, of which the second gives only what an `int` holds; the bus of the platform drivers calls probe when
-- a driver and its device are both there and remove when the driver goes. Reference counts,
-- semaphores and mutexes are the counts and flags that the kernel documents. `sprintf` and `sscanf`
-- are functions that the attributes take. When SIGINT comes is an argument of the watchdog
-- program. What a lock makes one step in the code is one step in the model.
--
-- Bounds and fuel: an `unsigned long` is reduced modulo 2^64 and a `short` modulo 2^16 where the
-- code computes with them. The indexes of the serial port's ring are taken modulo its size of 4096,
-- a power of two, as the code does; an `unsigned int` or a `u32` is reduced modulo 2^32 in the
-- serial port's count, the atomic counter, the registers of the frame buffer and the sum of debugfs2.c.
-- The count of a sequence lock is a number without a bound: that it wraps around while one reader reads is left
-- out. Loops over bytes and segments are structural recursion over the list at hand. Where a loop
-- waits for the kernel, it consumes a list of what the kernel answers, and running out of the list
-- is a result of its own, which stands for a call that still sleeps; the theorems on what a call
-- returns are stated for lists that let it return.
--
-- Not modelled: messages to the log, the fields that only identify a driver, build files and files
-- generated by the kernel's build, and the drivers and programs whose components the manifest lists
-- as not modelled: user programs that open one file, and modules that print one value or call one
-- function of the kernel.
pub mod Prelude
pub mod Kernel
pub mod WaitQueue
pub mod UsbSkeleton
pub mod LockDrivers
pub mod BlockDevice
pub mod CharDevice
pub mod Completion
pub mod BulkLoopback
pub mod UartDriver
pub mod Watchdog
pub mod AttributeDrivers
pub mod UsbMouse
pub mod Framebuffer
pub mod Chat
pub mod PlatformDrivers
pub mod KernelThreads
pub mod Signals
pub mod FileDrivers
pub mod DeferredWork
pub mod SmallModules
